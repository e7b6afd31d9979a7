-- ===== src/Word/Merge.antt =====
-- Setting bits of a field without clearing it first: `reg |= (value & mask) << shift`.
use native.Mathlib.Nat.{mod-lt, one-le-pow}
use rpi3b.Base.{
  ℕ, ◌+◌, ◌-◌, ◌%◌, ◌^◌, ◌≤◌, ◌<◌, ◌≡◌, ◌⊎◌, ◌&&◌, ◌||◌, ltb, leb, arith, bit_and, bit_or,
}
use rpi3b.Word.{◌<<◌, bit_at}
use rpi3b.Word.Bits.{bit_at-bit_and, bit_at-bit_or}
use rpi3b.Word.Shift.{bit_at-mod, bit_at-<<, eq_of_bits}
use rpi3b.Word.Field.{
  mask, bit_at-mask, extract_field, extract_field-lt, bit_at-extract_field, bit_or-lt, bit_and-lt,
  lt_two_pow,
}

pub bit_and_comm : (x y : ℕ) → bit_and x y ≡ bit_and y x
bit_and_comm x y =
    let n = x + y in
    let bound = lt_two_pow n in
    eq_of_bits n (bit_and x y) (bit_and y x) (bit_and-lt n x y (omega arith))
      (bit_and-lt n y x (omega arith))
      λ i lt. ground (arith, bit_at-bit_and x y i, bit_at-bit_and y x i)

abbrev pub merge_field : ℕ → ℕ → ℕ → ℕ → ℕ
merge_field s w v r = bit_or r (bit_and v (mask w) << s)

pub bit_at-merge_field :
    (s w v r i : ℕ)
    → i < 32
    → bit_at (merge_field s w v r) i
      ≡ (bit_at r i || (leb s i && ltb i (s + w) && bit_at v (i - s)))
bit_at-merge_field s w v r i h = ground (
  arith,
  bit_at-bit_or r (bit_and v (mask w) << s) i,
  bit_at-<< (bit_and v (mask w)) s i,
  bit_at-bit_and v (mask w) (i - s),
  bit_at-mask w (i - s),
)

-- The bits of the value join those that the field had.
pub extract_field-merge_field :
    (s w v r : ℕ)
    → s + w ≤ 32
    → extract_field s w (merge_field s w v r) ≡ bit_or (extract_field s w r) (v % 2 ^ w)
extract_field-merge_field s w v r h =
    let r' = merge_field s w v r in
    eq_of_bits w (extract_field s w r') (bit_or (extract_field s w r) (v % 2 ^ w))
      (extract_field-lt s w r' (omega arith))
      (bit_or-lt w (extract_field s w r) (v % 2 ^ w) (extract_field-lt s w r (omega arith))
        (mod-lt v {m = 2 ^ w} (one-le-pow w 2 (omega arith))))
      λ i lt. ground (
        arith,
        bit_at-extract_field s w r' i,
        bit_at-merge_field s w v r (i + s),
        bit_at-bit_or (extract_field s w r) (v % 2 ^ w) i,
        bit_at-extract_field s w r i,
        bit_at-mod v w i,
      )

pub extract_field-merge_field_ne :
    (s w s' w' v r : ℕ)
    → s' + w' ≤ 32
    → (s' + w' ≤ s) ⊎ (s + w ≤ s')
    → extract_field s' w' (merge_field s w v r) ≡ extract_field s' w' r
extract_field-merge_field_ne s w s' w' v r h apart =
    let r' = merge_field s w v r in
    eq_of_bits w' (extract_field s' w' r') (extract_field s' w' r)
      (extract_field-lt s' w' r' (omega arith)) (extract_field-lt s' w' r (omega arith))
      λ i lt. ground (
        arith,
        bit_at-extract_field s' w' r' i,
        bit_at-extract_field s' w' r i,
        bit_at-merge_field s w v r (i + s'),
      )
