-- ===== src/Mapping/Page.antt =====
-- The constructor of `MMIO`: which part of the device it maps, and where `get` points.
use native.Mathlib.Nat.{one-le-pow, pow-le-pow_right, div-mul-le_self, mul-mod_left}
use rpi3b.Base.{
  ℕ, ◌+◌, ◌-◌, ◌*◌, ◌/◌, ◌%◌, ◌^◌, ◌<◌, ◌≤◌, ◌≡◌, refl, ap, ◌∙◌, ltb, bit_and, some, ◌∷◌, arith,
}
use rpi3b.Mapping.{Region, Calls, made, page_base, construct, get}
use rpi3b.Word.{bit_at}
use rpi3b.Word.Bits.{bit_at-bit_and, bit_at-zero}
use rpi3b.Word.Field.{bit_and-lt}
use rpi3b.Word.Shift.{bit_at-div, bit_at-mul, bit_at-complement, eq_of_bits}

-- Bit i of 2 ^ k - 1.
bit_at-ones : (k i : ℕ) → bit_at (2 ^ k - 1) i ≡ ltb i k
bit_at-ones k i =
    ap (λ (t : ℕ). bit_at t i) {y = 2 ^ k - 1 - 0} (omega arith)
    ∙ bit_at-complement k 0 i (omega (arith, one-le-pow k 2))
    ∙ ground (arith, bit_at-zero i)

restored : (i k : ℕ) → k ≤ i → i - k + k ≡ i
restored i k h = omega arith

page_base-bit :
    (k phys i : ℕ)
    → 2 ^ k ≤ 2 ^ 64
    → i < 64
    → bit_at (bit_and phys (2 ^ 64 - 1 - (2 ^ k - 1))) i ≡ bit_at (phys / 2 ^ k * 2 ^ k) i
page_base-bit k phys i le lt = ground (
  arith,
  bit_at-bit_and phys (2 ^ 64 - 1 - (2 ^ k - 1)) i,
  bit_at-complement 64 (2 ^ k - 1) i (omega (arith, one-le-pow k 2)),
  bit_at-ones k i,
  bit_at-mul (phys / 2 ^ k) k i,
  bit_at-div phys k (i - k),
  restored i k,
)

page_base-floor :
    (k phys : ℕ) → k ≤ 64 → phys < 2 ^ 64 → page_base (2 ^ k) phys ≡ phys / 2 ^ k * 2 ^ k
unfolding page_base
page_base-floor k phys h lt =
    let le : 2 ^ k ≤ 2 ^ 64 = pow-le-pow_right {n = 2} (omega arith) h in
    eq_of_bits 64 (page_base (2 ^ k) phys) (phys / 2 ^ k * 2 ^ k)
      (bit_and-lt 64 phys (2 ^ 64 - 1 - (2 ^ k - 1)) lt)
      (omega (arith, div-mul-le_self phys (2 ^ k))) (λ i small. page_base-bit k phys i le small)

-- With a page size that is a power of two up to 2 ^ 64, and a physical address of 64 bits, when
-- `open` and `mmap` succeed: `mmap` is asked for the part of the device that begins at a multiple of
-- the page size, not above the block, and ends where the block ends; `get` is as far from the begin
-- of the mapping as the block is from that multiple; and the object holds the descriptor and the
-- mapping, which are recorded as taken.
pub construct_lem :
    (k fd at phys len : ℕ) (c : Calls)
    → k ≤ 64
    → phys < 2 ^ 64
    → let begin = page_base (2 ^ k) phys in
      (r : Region) × (construct (2 ^ k) (some fd) (some at) phys len c ≡ (
        made r,
        record c {
          opened = fd ∷ c.opened;
          mapped = (at, r.length) ∷ c.mapped;
          requested = (begin, r.length) ∷ c.requested;
        },
      ))
      × (begin % 2 ^ k ≡ 0)
      × (begin + r.length ≡ phys + len)
      × (get r ≡ some (at + (phys - begin)))
      × (begin ≤ phys)
      × (r.fd ≡ some fd)
      × (r.map ≡ some at)
unfolding construct get
construct_lem k fd at phys len c h lt =
    let e = page_base-floor k phys h lt in
    let below : page_base (2 ^ k) phys ≤ phys = omega (arith, e, div-mul-le_self phys (2 ^ k)) in
    (
      record {
        fd = some fd;
        map = some at;
        offset = phys - page_base (2 ^ k) phys;
        length = phys - page_base (2 ^ k) phys + len;
      },
      refl,
      ap (λ (t : ℕ). t % 2 ^ k) e ∙ mul-mod_left (phys / 2 ^ k) (2 ^ k),
      omega arith,
      refl,
      below,
      refl,
      refl,
    )
