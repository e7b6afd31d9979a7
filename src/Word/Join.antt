-- ===== src/Word/Join.antt =====
-- A disjunction of a multiple of 2 ^ n with a number below 2 ^ n is their sum.
use native.Mathlib.Nat.{mul-add-div_right, mul-add-mod_self_right, mod-eq_of_lt, div-eq_of_lt}
use rpi3b.Base.{
  ℕ, ◌+◌, ◌-◌, ◌*◌, ◌/◌, ◌%◌, ◌^◌, ◌≤◌, ◌<◌, ◌≡◌, sym, ap, ◌∙◌, ltb, bit_or, arith, Bool-cases, inl,
  inr,
}
use rpi3b.Word.{bit_at}
use rpi3b.Word.Bits.{bit_at-bit_or}
use rpi3b.Word.Field.{lt_two_pow, bit_at_of_lt, bit_or-lt}
use rpi3b.Word.Shift.{bit_at-div, bit_at-mul, bit_at-mod, eq_of_bits}

div_small : (y m : ℕ) → y < m → y / m ≡ 0
div_small y m h = div-eq_of_lt h

restored : (i n : ℕ) → n ≤ i → i - n + n ≡ i
restored i n h = omega arith

joined-high : (n x y i : ℕ) → y < 2 ^ n → bit_at (x * 2 ^ n + y) (i + n) ≡ bit_at x i
joined-high n x y i h =
    let e : (x * 2 ^ n + y) / 2 ^ n ≡ x =
      mul-add-div_right (omega arith) x y ∙ omega (arith, div_small y (2 ^ n) h) in
    sym (bit_at-div (x * 2 ^ n + y) n i) ∙ ap (λ (t : ℕ). bit_at t i) e

joined-low : (n x y i : ℕ) → y < 2 ^ n → i < n → bit_at (x * 2 ^ n + y) i ≡ bit_at y i
joined-low n x y i h lt =
    let e : (x * 2 ^ n + y) % 2 ^ n ≡ y = mul-add-mod_self_right x (2 ^ n) y ∙ mod-eq_of_lt h in
    ground (arith, bit_at-mod (x * 2 ^ n + y) n i, ap (λ (t : ℕ). bit_at t i) e)

bit_at-join : (n x y i : ℕ) → y < 2 ^ n → bit_at (bit_or (x * 2 ^ n) y) i ≡ bit_at (x * 2 ^ n + y) i
bit_at-join n x y i h = elim (Bool-cases (ltb i n)) [
  | inl low ↦ ground (arith, bit_at-bit_or (x * 2 ^ n) y i, bit_at-mul x n i, joined-low n x y i h)
  | inr high ↦ ground (
    arith,
    bit_at-bit_or (x * 2 ^ n) y i,
    bit_at-mul x n i,
    bit_at_of_lt n y i h,
    joined-high n x y (i - n) h,
    restored i n,
  )
]

pub bit_or-join : (n x y : ℕ) → y < 2 ^ n → bit_or (x * 2 ^ n) y ≡ x * 2 ^ n + y
bit_or-join n x y h =
    let m = x * 2 ^ n + y in
    let wide : m < 2 ^ m = lt_two_pow m in
    eq_of_bits m (bit_or (x * 2 ^ n) y) m (bit_or-lt m (x * 2 ^ n) y (omega arith) (omega arith))
      wide (λ i lt. bit_at-join n x y i h)
