-- ===== src/Libc/Compare.antt =====
-- `memcmp`: its result is zero exactly at equal ranges, and else tells the first difference.
use rpi3b.Base.{ℕ, zero, suc, ◌+◌, ◌<◌, ◌≡◌, ◌≢◌, ◌↔◌, refl, ◌==◌, arith, Bool-cases, inl, inr}
use rpi3b.Base.Int.{pos, sub_ℕ}
use rpi3b.Libc.{Memory, memcmp}

-- The ranges of n bytes at a and at b hold the same bytes.
abbrev pub SameBytes : Memory → ℕ → ℕ → ℕ → Type 0
SameBytes m a b n = (i : ℕ) → i < n → m (a + i) ≡ m (b + i)

shift : (a i : ℕ) → a + suc i ≡ a + 1 + i
shift a i = omega arith

add_zero : (a : ℕ) → a + 0 ≡ a
add_zero a = omega arith

SameBytes-head : (m : Memory) (a b n : ℕ) → SameBytes m a b (suc n) → m a ≡ m b
SameBytes-head m a b n same = ground (arith, same 0, add_zero a, add_zero b)

SameBytes-tail : (m : Memory) (a b n : ℕ) → SameBytes m a b (suc n) → SameBytes m (a + 1) (b + 1) n
SameBytes-tail m a b n same i h = ground (arith, same (suc i), shift a i, shift b i)

-- When the ranges agree in the first i bytes and differ in the next one, with i < n, `memcmp`
-- returns the difference of those two bytes, read as unsigned numbers, the first range's minus the
-- second's.
pub memcmp-first :
    (m : Memory) (a b n i : ℕ)
    → i < n
    → SameBytes m a b i
    → m (a + i) ≢ m (b + i)
    → memcmp m a b n ≡ sub_ℕ (m (a + i)) (m (b + i))
unfolding memcmp
memcmp-first m a b zero i h same differ = absurd (omega arith)
memcmp-first m a b (suc n) zero h same differ = ground (arith, add_zero a, add_zero b)
memcmp-first m a b (suc n) (suc i) h same differ = ground (
  arith,
  shift a i,
  shift b i,
  SameBytes-head m a b i same,
  memcmp-first m (a + 1) (b + 1) n i (omega arith) (SameBytes-tail m a b i same),
)

SameBytes-memcmp : (m : Memory) (a b n : ℕ) → memcmp m a b n ≡ pos 0 → SameBytes m a b n
unfolding memcmp
SameBytes-memcmp m a b zero e i h = absurd (omega arith)
SameBytes-memcmp m a b (suc n) e zero h = ground (arith, add_zero a, add_zero b)
SameBytes-memcmp m a b (suc n) e (suc i) h = elim (Bool-cases (m a == m b)) [
  | inl same ↦
      rw (shift a i, shift b i)
        (SameBytes-memcmp m (a + 1) (b + 1) n (ground arith) i (omega arith))
  | inr differ ↦ absurd (ground arith)
]

memcmp-SameBytes : (m : Memory) (a b n : ℕ) → SameBytes m a b n → memcmp m a b n ≡ pos 0
unfolding memcmp
memcmp-SameBytes m a b zero same = refl
memcmp-SameBytes m a b (suc n) same = ground (
  arith,
  SameBytes-head m a b n same,
  memcmp-SameBytes m (a + 1) (b + 1) n (SameBytes-tail m a b n same),
)

-- `memcmp` returns zero exactly when the two ranges hold the same n bytes.
pub memcmp-zero_iff : (m : Memory) (a b n : ℕ) → (memcmp m a b n ≡ pos 0) ↔ SameBytes m a b n
memcmp-zero_iff m a b n = (SameBytes-memcmp m a b n, memcmp-SameBytes m a b n)
