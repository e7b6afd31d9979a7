-- ===== src/Console/Decimal.antt =====
-- The two decimal printers send the same digits.
use native.Mathlib.Nat.{pow-zero}
use rpi3b.Base.{
  ℕ, zero, suc, ◌+◌, ◌/◌, ◌%◌, ◌^◌, ◌<◌, ◌≡◌, refl, Bool, some, [], ◌∷◌, ◌==◌, arith, Bool-cases,
  inl, inr,
}
use rpi3b.Base.Text.{Bytes}
use rpi3b.Console.{digit, dec_rounds, uart_dec, print_rounds, print_uint}
use rpi3b.Console.Digits.{less, digit-read}

digit-decimal : (upper : Bool) (d : ℕ) → d < 10 → digit upper d ≡ some (b'0' + d)
digit-decimal upper d h = let (c, found, worth) = digit-read upper d (omega arith) in ground arith

print_rounds-dec_rounds :
    (a b : ℕ) (upper : Bool) (v : ℕ) (buf : Bytes)
    → v < 10 ^ a
    → v < 10 ^ b
    → print_rounds a 10 upper v buf ≡ some (dec_rounds b v buf)
unfolding print_rounds dec_rounds
print_rounds-dec_rounds zero zero upper v buf h k = refl
print_rounds-dec_rounds zero (suc b) upper v buf h k = ground (arith, pow-zero 10)
print_rounds-dec_rounds (suc a) zero upper v buf h k = ground (arith, pow-zero 10)
print_rounds-dec_rounds (suc a) (suc b) upper v buf h k = elim (Bool-cases (v == 0)) [
  | inl done ↦ rw done refl
  | inr more ↦
      rw (more, digit-decimal upper (v % 10) (omega arith))
        (print_rounds-dec_rounds a b upper (v / 10) ((b'0' + v % 10) ∷ buf)
          (less 10 v a (omega arith) h) (less 10 v b (omega arith) k))
]

-- Below 2 ^ 64 the two decimal printers agree: `uart_dec` sends what `print_uint` sends in base ten,
-- in either case of the letters.
pub print_uint-uart_dec :
    (v : ℕ) (upper : Bool) → v < 2 ^ 64 → print_uint v 10 upper ≡ some (uart_dec v)
unfolding print_uint uart_dec
print_uint-uart_dec v upper h = elim (Bool-cases (v == 0)) [
  | inl done ↦ rw done refl
  | inr more ↦ rw more (print_rounds-dec_rounds 24 20 upper v [] (omega arith) (omega arith))
]
