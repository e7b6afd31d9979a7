-- ===== src/Libc/Copy.antt =====
-- `memset`, `memcpy` and `memmove`: the memory that they leave.
use rpi3b.Base.{
  ℕ, zero, suc, ◌+◌, ◌-◌, ◌%◌, ◌≤◌, ◌<◌, ◌≡◌, ◌⊎◌, refl, Bool, ◌&&◌, ltb, leb, if◌then◌else◌, arith,
  Bool-cases, inl, inr, ltb→lt, ltb→le,
}
use rpi3b.Mmio.{update}
use rpi3b.Libc.{Memory, fill, memset, copy_up, copy_down, memcpy, memmove}

-- Whether an address lies in a range of `n` bytes.
abbrev pub within : ℕ → ℕ → ℕ → Bool
within d n a = leb d a && ltb a (d + n)

fill-value : (m : Memory) (p c n a : ℕ) → fill m p c n a ≡ (if within p n a then c % 256 else m a)
unfolding fill
fill-value m p c zero a = ground arith
fill-value m p c (suc n) a = ground (arith, fill-value (update m p (c % 256)) (p + 1) c n a)

index : (d s a : ℕ) → d < a → s + 1 + (a - (d + 1)) ≡ s + (a - d)
index d s a h = omega arith

ends : (d s n a : ℕ) → d + n ≡ a → s + (a - d) ≡ s + n
ends d s n a h = omega arith

copy_up-value :
    (m : Memory) (d s n a : ℕ)
    → (d ≤ s) ⊎ (s + n ≤ d)
    → copy_up m d s n a ≡ (if within d n a then m (s + (a - d)) else m a)
unfolding copy_up
copy_up-value m d s zero a h = ground arith
copy_up-value m d s (suc n) a h = ground (
  arith,
  copy_up-value (update m d (m s)) (d + 1) (s + 1) n a
      (elim h [ inl p ↦ inl (omega arith) | inr q ↦ inr (omega arith) ]),
  index d s a,
)

copy_down-value :
    (m : Memory) (d s n a : ℕ)
    → s ≤ d
    → copy_down m (d + n) (s + n) n a ≡ (if within d n a then m (s + (a - d)) else m a)
unfolding copy_down
copy_down-value m d s zero a h = ground arith
copy_down-value m d s (suc n) a h =
    let last : d + suc n - 1 ≡ d + n = omega arith in
    let from : s + suc n - 1 ≡ s + n = omega arith in
    rw (last, from)
      (ground (arith, copy_down-value (update m (d + n) (m (s + n))) d s n a h, ends d s n a))

-- `memset` puts the low byte of its second argument into each of the n bytes and changes no other;
-- it returns its first argument.
pub memset_lem :
    (m : Memory) (d c n a : ℕ)
    → ((memset m d c n).0 a ≡ (if within d n a then c % 256 else m a)) × ((memset m d c n).1 ≡ d)
unfolding memset
memset_lem m d c n a = (fill-value m d c n a, refl)

-- `memcpy` gives each of the n bytes at the destination the value that the source byte at the same
-- place had before, and changes no other, when the destination does not begin inside the source;
-- it returns the destination.
pub memcpy_lem :
    (m : Memory) (d s n a : ℕ)
    → (d ≤ s) ⊎ (s + n ≤ d)
    → ((memcpy m d s n).0 a ≡ (if within d n a then m (s + (a - d)) else m a))
      × ((memcpy m d s n).1 ≡ d)
unfolding memcpy
memcpy_lem m d s n a h = (copy_up-value m d s n a h, refl)

-- Whether or not the two ranges overlap, `memmove` gives each of the n bytes at the destination
-- the value that the source byte at the same place had before, and changes no other; it returns
-- the destination.
pub memmove_lem :
    (m : Memory) (d s n a : ℕ)
    → ((memmove m d s n).0 a ≡ (if within d n a then m (s + (a - d)) else m a))
      × ((memmove m d s n).1 ≡ d)
unfolding memmove
memmove_lem m d s n a = elim (Bool-cases (ltb d s)) [
  | inl below ↦ rw below (copy_up-value m d s n a (inl (omega (arith, ltb→lt d s))), refl)
  | inr above ↦ rw above (copy_down-value m d s n a (ltb→le d s above), refl)
]
