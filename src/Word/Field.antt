-- ===== src/Word/Field.antt =====
-- A field of `width` bits at bit `shift` of a word: reading it, replacing it, and masks.
-- `mask` is the helper of that name in src/i2c/i2c.cpp and src/spi/spi.cpp.
use native.Mathlib.Nat.{two-pow-succ, mod-lt, mod-le, mod-eq_of_lt, one-le-pow}
use rpi3b.Base.{
  ℕ, zero, suc, ◌+◌, ◌-◌, ◌%◌, ◌^◌, ◌≤◌, ◌<◌, ◌≡◌, sym, ap, ◌∙◌, false, ◌&&◌, ltb, leb,
  if◌then◌else◌, arith, bit_and, bit_or, ◌⊎◌,
}
use rpi3b.Word.{not32, ◌<<◌, ◌>>◌, bit_at}
use rpi3b.Word.Bits.{bit_at-zero, bit_at-bit_and, bit_at-bit_or}
use rpi3b.Word.Shift.{bit_at-mod, bit_at-not32, bit_at-<<, bit_at->>, eq_of_bits}

pub lt_two_pow : (n : ℕ) → n < 2 ^ n
lt_two_pow zero = omega arith
lt_two_pow (suc n) = omega (arith, lt_two_pow n, two-pow-succ n)

pub lt_two_pow_add : (n : ℕ) → n < 2 ^ (n + 32)
lt_two_pow_add n = omega (arith, lt_two_pow (n + 32))

-- A number is below `2 ^ n` exactly when it has no bit from `n` on.
pub lt_of_bits : (n x : ℕ) → ((i : ℕ) → n ≤ i → bit_at x i ≡ false) → x < 2 ^ n
lt_of_bits n x h =
    let same : x ≡ x % 2 ^ n =
      eq_of_bits x x (x % 2 ^ n) (lt_two_pow x) (omega (arith, mod-le x (2 ^ n), lt_two_pow x))
        (λ i lt. ground (arith, bit_at-mod x n i, h i)) in
    omega (arith, same, mod-lt x {m = 2 ^ n} (one-le-pow n 2 (omega arith)))

pub bit_at_of_lt : (n x i : ℕ) → x < 2 ^ n → n ≤ i → bit_at x i ≡ false
bit_at_of_lt n x i h le =
    ap (λ (t : ℕ). bit_at t i) (sym (mod-eq_of_lt h)) ∙ bit_at-mod x n i ∙ ground arith

pub bit_or-lt : (n x y : ℕ) → x < 2 ^ n → y < 2 ^ n → bit_or x y < 2 ^ n
bit_or-lt n x y p q =
    lt_of_bits n (bit_or x y)
      λ i le. ground (arith, bit_at-bit_or x y i, bit_at_of_lt n x i p, bit_at_of_lt n y i q)

pub bit_and-lt : (n x y : ℕ) → x < 2 ^ n → bit_and x y < 2 ^ n
bit_and-lt n x y p =
    lt_of_bits n (bit_and x y) λ i le. ground (arith, bit_at-bit_and x y i, bit_at_of_lt n x i p)

pub not32-lt : (x : ℕ) → not32 x < 2 ^ 32
unfolding not32
not32-lt x = omega arith

pub <<-lt : (x k : ℕ) → x << k < 2 ^ 32
unfolding ◌<<◌
<<-lt x k = omega arith

unfoldable pub mask : ℕ → ℕ
unfolding not32 ◌<<◌
mask w = if leb 32 w then not32 0 else not32 (not32 0 << w)

pub bit_at-mask : (w i : ℕ) → bit_at (mask w) i ≡ (ltb i w && ltb i 32)
unfolding mask
bit_at-mask w i = ground (
  arith,
  bit_at-not32 0 i,
  bit_at-zero i,
  bit_at-not32 (not32 0 << w) i (<<-lt (not32 0) w),
  bit_at-<< (not32 0) w i,
  bit_at-not32 0 (i - w),
  bit_at-zero (i - w),
)

pub bit_and-mask : (w v : ℕ) → w ≤ 32 → bit_and v (mask w) ≡ v % 2 ^ w
bit_and-mask w v le =
    eq_of_bits (v + 32) (bit_and v (mask w)) (v % 2 ^ w)
      (bit_and-lt (v + 32) v (mask w) (lt_two_pow_add v))
      (omega (arith, mod-le v (2 ^ w), lt_two_pow_add v))
      (λ i lt. ground (arith, bit_at-bit_and v (mask w) i, bit_at-mask w i, bit_at-mod v w i))

-- What `reg &= ~(mask << shift); reg |= (value & mask) << shift` leaves in the register.
abbrev pub insert_field : ℕ → ℕ → ℕ → ℕ → ℕ
insert_field s w v r = bit_or (bit_and r (not32 (mask w << s))) (bit_and v (mask w) << s)

-- `(reg >> shift) & mask`
abbrev pub extract_field : ℕ → ℕ → ℕ → ℕ
extract_field s w r = bit_and (r >> s) (mask w)

pub bit_at-insert_field :
    (s w v r i : ℕ)
    → i < 32
    → bit_at (insert_field s w v r) i
      ≡ (if leb s i && ltb i (s + w) then bit_at v (i - s) else bit_at r i)
bit_at-insert_field s w v r i h = ground (
  arith,
  bit_at-bit_or (bit_and r (not32 (mask w << s))) (bit_and v (mask w) << s) i,
  bit_at-bit_and r (not32 (mask w << s)) i,
  bit_at-not32 (mask w << s) i (<<-lt (mask w) s),
  bit_at-<< (mask w) s i,
  bit_at-mask w (i - s),
  bit_at-<< (bit_and v (mask w)) s i,
  bit_at-bit_and v (mask w) (i - s),
)

pub bit_at-extract_field :
    (s w r i : ℕ) → w ≤ 32 → bit_at (extract_field s w r) i ≡ (ltb i w && bit_at r (i + s))
bit_at-extract_field s w r i h =
    ground (arith, bit_at-bit_and (r >> s) (mask w) i, bit_at-mask w i, bit_at->> r s i)

-- Reading a field gives its bits as a number.
pub extract_field_lem : (s w r : ℕ) → w ≤ 32 → extract_field s w r ≡ (r >> s) % 2 ^ w
extract_field_lem s w r h = bit_and-mask w (r >> s) h

pub extract_field-lt : (s w r : ℕ) → w ≤ 32 → extract_field s w r < 2 ^ w
extract_field-lt s w r h =
    omega
      (arith, extract_field_lem s w r h, mod-lt (r >> s) {m = 2 ^ w} (one-le-pow w 2 (omega arith)))

-- Reading the field that was written gives the low bits of the written value.
pub extract_field-insert_field :
    (s w v r : ℕ) → s + w ≤ 32 → extract_field s w (insert_field s w v r) ≡ v % 2 ^ w
extract_field-insert_field s w v r h =
    let r' = insert_field s w v r in
    eq_of_bits w (extract_field s w r') (v % 2 ^ w) (extract_field-lt s w r' (omega arith))
      (mod-lt v {m = 2 ^ w} (one-le-pow w 2 (omega arith)))
      λ i lt. ground (
        arith,
        bit_at-extract_field s w r' i,
        bit_at-insert_field s w v r (i + s),
        bit_at-mod v w i,
      )

-- A field that does not overlap the written one keeps its value.
pub extract_field-insert_field_ne :
    (s w s' w' v r : ℕ)
    → s' + w' ≤ 32
    → (s' + w' ≤ s) ⊎ (s + w ≤ s')
    → extract_field s' w' (insert_field s w v r) ≡ extract_field s' w' r
extract_field-insert_field_ne s w s' w' v r h apart =
    let r' = insert_field s w v r in
    eq_of_bits w' (extract_field s' w' r') (extract_field s' w' r)
      (extract_field-lt s' w' r' (omega arith)) (extract_field-lt s' w' r (omega arith))
      λ i lt. ground (
        arith,
        bit_at-extract_field s' w' r' i,
        bit_at-extract_field s' w' r i,
        bit_at-insert_field s w v r (i + s'),
      )

pub insert_field-lt : (s w v r : ℕ) → r < 2 ^ 32 → insert_field s w v r < 2 ^ 32
insert_field-lt s w v r h =
    bit_or-lt 32 _ _ (bit_and-lt 32 r (not32 (mask w << s)) h) (<<-lt (bit_and v (mask w)) s)

-- The masks that the drivers write as literals.
module _ (r : ℕ) where
  pub bit_and_byte : bit_and r 0xff ≡ r % 2 ^ 8
  unfolding mask
  bit_and_byte = bit_and-mask 8 r (omega arith)

  pub bit_and_seven_bits : bit_and r 0x7f ≡ r % 2 ^ 7
  unfolding mask
  bit_and_seven_bits = bit_and-mask 7 r (omega arith)

  pub bit_and_half_word : bit_and r 0xffff ≡ r % 2 ^ 16
  unfolding mask
  bit_and_half_word = bit_and-mask 16 r (omega arith)
