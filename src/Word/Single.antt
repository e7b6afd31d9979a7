-- ===== src/Word/Single.antt =====
-- Single bits of a word: the patterns `word |= 1U << k`, `word & (1U << k)` and `(word >> k) & 1U`.
use native.Mathlib.Nat.{zero-add, zero-mul, one-le-pow}
use rpi3b.Base.{
  ℕ, zero, suc, ◌+◌, ◌-◌, ◌%◌, ◌^◌, ◌<◌, ◌≡◌, ◌≢◌, refl, Bool-cases, inl, inr, sym, ap, ◌∙◌, Bool,
  true, false, not, ◌&&◌, ◌||◌, ◌==◌, if◌then◌else◌, arith, bit_and, bit_or,
}
use rpi3b.Word.{not32, ◌<<◌, ◌>>◌, bit_at}
use rpi3b.Word.Bits.{bit_at-zero, bit_at-bit_and, bit_at-bit_or}
use rpi3b.Word.Shift.{bit_at-not32, bit_at-<<, bit_at->>, eq_of_bits}
use rpi3b.Word.Field.{mask, bit_and-mask, bit_and-lt, bit_or-lt, lt_two_pow_add, <<-lt}

-- The test `word & (1U << k)` as a condition.
abbrev pub is_set : ℕ → ℕ → Bool
is_set r k = not (bit_and r (1 << k) == 0)

bit_at-one : (i : ℕ) → bit_at 1 i ≡ (i == 0)
unfolding bit_at
bit_at-one zero = refl
bit_at-one (suc i) = bit_at-zero i ∙ ground arith

pub bit_at-one_<< : (k i : ℕ) → k < 32 → bit_at (1 << k) i ≡ (i == k)
bit_at-one_<< k i h = ground (arith, bit_at-<< 1 k i, bit_at-one (i - k))

pub bit_at-bit_or_one : (r k i : ℕ) → k < 32 → bit_at (bit_or r (1 << k)) i ≡ (bit_at r i || i == k)
bit_at-bit_or_one r k i h = ground (arith, bit_at-bit_or r (1 << k) i, bit_at-one_<< k i)

pub bit_at-clear_one :
    (r k i : ℕ)
    → k < 32
    → i < 32
    → bit_at (bit_and r (not32 (1 << k))) i ≡ (bit_at r i && not (i == k))
bit_at-clear_one r k i h h' = ground (
  arith,
  bit_at-bit_and r (not32 (1 << k)) i,
  bit_at-not32 (1 << k) i (<<-lt 1 k),
  bit_at-one_<< k i,
)

mask_one : mask 1 ≡ 1
unfolding mask not32 ◌<<◌
mask_one = refl

bit_at_lowest : (r : ℕ) → r % 2 ≡ (if bit_at r 0 then 1 else 0)
unfolding bit_at
bit_at_lowest r = ground arith

pub shifted-mod_two : (r k : ℕ) → (r >> k) % 2 ≡ (if bit_at r k then 1 else 0)
shifted-mod_two r k =
    ground (arith, bit_at_lowest (r >> k), bit_at->> r k 0, ap (λ (t : ℕ). bit_at r t) (zero-add k))

pub bit_and_one : (r k : ℕ) → bit_and (r >> k) 1 ≡ (if bit_at r k then 1 else 0)
bit_and_one r k =
    ap (λ (t : ℕ). bit_and (r >> k) t) (sym mask_one)
    ∙ bit_and-mask 1 (r >> k) (omega arith)
    ∙ shifted-mod_two r k

bit_and_one-zero : (r k : ℕ) → k < 32 → bit_at r k ≡ false → bit_and r (1 << k) ≡ 0
bit_and_one-zero r k h e =
    eq_of_bits (r + 32) (bit_and r (1 << k)) 0 (bit_and-lt (r + 32) r (1 << k) (lt_two_pow_add r))
      (omega (arith, one-le-pow (r + 32) 2))
      λ i lt. ground (arith, bit_at-bit_and r (1 << k) i, bit_at-one_<< k i h, bit_at-zero i)

is_set-true : (r k : ℕ) → k < 32 → bit_at r k ≡ true → is_set r k ≡ true
is_set-true r k h e =
    let ne : bit_and r (1 << k) ≢ 0 = λ z. ground (
      arith,
      bit_at-bit_and r (1 << k) k,
      bit_at-one_<< k k h,
      bit_at-zero k,
      ap (λ (t : ℕ). bit_at t k) z,
    ) in
    ground arith

pub is_set_lem : (r k : ℕ) → k < 32 → is_set r k ≡ bit_at r k
is_set_lem r k h = elim (Bool-cases (bit_at r k)) [
  | inl e ↦ is_set-true r k h e ∙ sym e
  | inr e ↦ ap (λ (t : ℕ). not (t == 0)) (bit_and_one-zero r k h e) ∙ sym e
]

pub zero_<< : (k : ℕ) → 0 << k ≡ 0
unfolding ◌<<◌
zero_<< k = rw (zero-mul (2 ^ k)) refl

pub bit_or-zero : (r : ℕ) → bit_or r 0 ≡ r
bit_or-zero r =
    eq_of_bits (r + 32) (bit_or r 0) r
      (bit_or-lt (r + 32) r 0 (lt_two_pow_add r) (omega (arith, lt_two_pow_add r)))
      (lt_two_pow_add r) λ i lt. ground (arith, bit_at-bit_or r 0 i, bit_at-zero i)

pub zero-bit_and : (x : ℕ) → bit_and 0 x ≡ 0
zero-bit_and x =
    eq_of_bits x (bit_and 0 x) 0 (bit_and-lt x 0 x (omega (arith, one-le-pow x 2)))
      (omega (arith, one-le-pow x 2)) λ i lt. ground (arith, bit_at-bit_and 0 x i, bit_at-zero i)
