-- ===== src/Printf/Hexadecimal.antt =====
-- Hexadecimal numbers as `print_uint` of freestanding/libc_min.cpp sends them.
use native.Mathlib.Nat.{pow-zero}
use mathlib.Core.List.{append-nil, append_assoc}
use rpi3b.Base.{
  ℕ, zero, suc, ◌+◌, ◌-◌, ◌/◌, ◌%◌, ◌^◌, ◌<◌, ◌≡◌, refl, sym, ap, ◌∙◌, Bool, true, false, some, [],
  ◌∷◌, ◌++◌, ltb, ◌==◌, if◌then◌else◌, arith, Bool-cases, inl, inr,
}
use rpi3b.Base.Text.{Bytes}
use rpi3b.Console.{digit, print_rounds, print_uint}
use rpi3b.Console.Digits.{less}

abbrev hex_char : Bool → ℕ → ℕ
hex_char upper d = if ltb d 10 then b'0' + d else (if upper then b'A' else b'a') + (d - 10)

-- The digits of a number below 16 ^ k, the highest one first, with no zero before them.
unfoldable pub hex_digits : ℕ → Bool → ℕ → Bytes
hex_digits zero upper n = []
hex_digits (suc k) upper n =
    let rest = hex_digits k upper (n / 16) ++ hex_char upper (n % 16) ∷ [] in
    if n == 0 then [] else rest

-- A number of at most 64 bits.
abbrev pub hex_text : Bool → ℕ → Bytes
hex_text upper n = if n == 0 then b'0' ∷ [] else hex_digits 16 upper n

digit-hexadecimal : (upper : Bool) (d : ℕ) → d < 16 → digit upper d ≡ some (hex_char upper d)
unfolding digit
digit-hexadecimal true d h = ground arith
digit-hexadecimal false d h = ground arith

print_rounds-hex_digits :
    (a b : ℕ) (upper : Bool) (v : ℕ) (buf : Bytes)
    → v < 16 ^ a
    → v < 16 ^ b
    → print_rounds a 16 upper v buf ≡ some (hex_digits b upper v ++ buf)
unfolding print_rounds hex_digits
print_rounds-hex_digits zero zero upper v buf h k = refl
print_rounds-hex_digits zero (suc b) upper v buf h k = ground (arith, pow-zero 16)
print_rounds-hex_digits (suc a) zero upper v buf h k = ground (arith, pow-zero 16)
print_rounds-hex_digits (suc a) (suc b) upper v buf h k = elim (Bool-cases (v == 0)) [
  | inl done ↦ rw done refl
  | inr more ↦
      rw (more, digit-hexadecimal upper (v % 16) (omega arith))
        (print_rounds-hex_digits a b upper (v / 16) (hex_char upper (v % 16) ∷ buf)
            (less 16 v a (omega arith) h) (less 16 v b (omega arith) k)
          ∙ ap some
              (sym (append_assoc (hex_digits b upper (v / 16)) (hex_char upper (v % 16) ∷ []) buf)))
]

-- In base sixteen `print_uint` sends the digits of a number below 2 ^ 64.
pub print_uint-hex_text :
    (v : ℕ) (upper : Bool) → v < 2 ^ 64 → print_uint v 16 upper ≡ some (hex_text upper v)
unfolding print_uint
print_uint-hex_text v upper h = elim (Bool-cases (v == 0)) [
  | inl done ↦ rw done refl
  | inr more ↦ rw more (
      print_rounds-hex_digits 24 16 upper v [] (omega arith) (omega arith)
      ∙ ap some (append-nil (hex_digits 16 upper v)))
]
