-- ===== src/Interrupt/Lowest.antt =====
-- `lowest_set_bit` of src/src/interrupt/interrupt.cpp against a search from bit 0 upwards.
use native.Mathlib.Nat.{div-div-eq-div-mul, pow-suc, two-pow-succ}
use rpi3b.Base.{
  ℕ, zero, suc, ◌+◌, ◌/◌, ◌^◌, ◌<◌, ◌≡◌, ◌≢◌, refl, sym, ap, ◌∙◌, Bool, true, false, Option, none,
  some, arith, ◌==◌, Bool-cases, inl, inr,
}
use rpi3b.Word.{◌>>◌, bit_at}
use rpi3b.Word.Bits.{bit_at-zero}
use rpi3b.Word.Single.{bit_and_one, shifted-mod_two}
use rpi3b.Interrupt.{skip_zeros, lowest_set_bit}

-- The first of the `n` numbers from `k` on that passes the test.
unfoldable pub first_from : (ℕ → Bool) → ℕ → ℕ → Option ℕ
first_from p zero k = none
first_from p (suc n) k = elim (p k) [ true ↦ some k | false ↦ first_from p n (k + 1) ]

pub first_from-none : (p : ℕ → Bool) (n k : ℕ) → ((i : ℕ) → p i ≡ false) → first_from p n k ≡ none
unfolding first_from
first_from-none p zero k h = refl
first_from-none p (suc n) k h = rw (h k, first_from) (first_from-none p n (k + 1) h)

shift_again : (v n : ℕ) → (v >> n) >> 1 ≡ v >> (n + 1)
unfolding ◌>>◌
shift_again v n =
    div-div-eq-div-mul v (2 ^ n) (2 ^ 1)
    ∙ ap (λ (t : ℕ). v / t) (sym (pow-suc 2 n) ∙ ap (λ (t : ℕ). 2 ^ t) (omega arith))

halve : (v n : ℕ) → (v >> (n + 1)) ≡ (v >> n) / 2
unfolding ◌>>◌
halve v n = sym (shift_again v n)

skip_zeros-first_from :
    (fuel v n : ℕ)
    → v >> n < 2 ^ fuel
    → v >> n ≢ 0
    → first_from (bit_at v) fuel n ≡ some (skip_zeros fuel (v >> n) n)
unfolding first_from skip_zeros
skip_zeros-first_from zero v n lt ne = absurd (ne (omega arith))
skip_zeros-first_from (suc fuel) v n lt ne = elim (Bool-cases (bit_at v n)) [
  | inl e ↦ rw (bit_and_one v n, e, first_from, skip_zeros) refl
  | inr e ↦
      rw (bit_and_one v n, e, shift_again v n, first_from, skip_zeros)
        (skip_zeros-first_from fuel v (n + 1) (omega (arith, halve v n, two-pow-succ fuel))
          (λ z. ne (ground (arith, halve v n, shifted-mod_two v n))))
]

-- For a 32-bit word, `lowest_set_bit` gives the lowest bit that is set, and -1 for 0: its loop
-- ends within the 32 rounds.
pub lowest_set_bit-first_from : (v : ℕ) → v < 2 ^ 32 → lowest_set_bit v ≡ first_from (bit_at v) 32 0
unfolding lowest_set_bit
lowest_set_bit-first_from v h = elim (Bool-cases (v == 0)) [
  | inl e ↦ let z : v ≡ 0 = ground arith in rw z (sym (first_from-none (bit_at 0) 32 0 bit_at-zero))
  | inr e ↦
      let unshifted : v >> 0 ≡ v = unfold ◌>>◌ in omega arith in
      let found =
        skip_zeros-first_from 32 v 0 (omega (arith, unshifted))
          (λ z. absurd (ground (arith, unshifted))) in
      rw e (ap (λ (t : ℕ). some (skip_zeros 32 t 0)) (sym unshifted) ∙ sym found)
]
