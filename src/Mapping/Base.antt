-- ===== src/Mapping/Base.antt =====
-- The detection of the peripheral base, and its cache.
use rpi3b.Base.{
  ℕ, ◌*◌, ◌/◌, ◌%◌, ◌^◌, ◌<◌, ◌≡◌, ◌≢◌, refl, ◌∙◌, bit_or, Option, none, some, ◌∷◌, length, arith,
}
use rpi3b.Base.Text.{Bytes}
use rpi3b.Mapping.{big_endian, detect_periph_base, periph_base}
use rpi3b.Word.Join.{bit_or-join}

-- A number below 2 ^ 32 as four bytes, the highest first, before a rest.
abbrev pub be32 : ℕ → Bytes → Bytes
be32 v rest = (v / 2 ^ 24) ∷ (v / 2 ^ 16 % 256) ∷ (v / 2 ^ 8 % 256) ∷ (v % 256) ∷ rest

joined :
    (v : ℕ)
    → v < 2 ^ 32
    → bit_or
        (bit_or
          (bit_or (v / 2 ^ 24 * 2 ^ 24) (v / 2 ^ 16 % 256 * 2 ^ 16))
          (v / 2 ^ 8 % 256 * 2 ^ 8))
        (v % 256)
      ≡ v
joined v h =
    let a = bit_or-join 24 (v / 2 ^ 24) (v / 2 ^ 16 % 256 * 2 ^ 16) (omega arith) in
    let b = bit_or-join 16 (v / 2 ^ 16) (v / 2 ^ 8 % 256 * 2 ^ 8) (omega arith) in
    let c = bit_or-join 8 (v / 2 ^ 8) (v % 256) (omega arith) in
    let a' : bit_or (v / 2 ^ 24 * 2 ^ 24) (v / 2 ^ 16 % 256 * 2 ^ 16) ≡ v / 2 ^ 16 * 2 ^ 16 =
      a ∙ omega arith in
    let b' : bit_or (v / 2 ^ 16 * 2 ^ 16) (v / 2 ^ 8 % 256 * 2 ^ 8) ≡ v / 2 ^ 8 * 2 ^ 8 =
      b ∙ omega arith in
    rw (a', b') (c ∙ omega arith)

-- From a device tree whose second word is a base that is not zero, and from one whose second word is
-- zero and whose third is such a base, `detect_periph_base` reads this base, whatever else the
-- file holds; without the file, and from one of fewer than eight bytes, it gives 0x3F000000.
pub detect-be32 :
    (first base : ℕ) (rest : Bytes)
    → first < 2 ^ 32
    → base < 2 ^ 32
    → base ≢ 0
    → (detect_periph_base (some (be32 first (be32 base rest))) ≡ base)
      × (detect_periph_base (some (be32 first (be32 0 (be32 base rest)))) ≡ base)
      × (detect_periph_base none ≡ 0x3F000000)
      × ((short : Bytes) → length short < 8 → detect_periph_base (some short) ≡ 0x3F000000)
unfolding detect_periph_base big_endian
detect-be32 first base rest h k ne = (
  ground (arith, joined base k),
  ground (arith, joined base k, joined 0 (omega arith)),
  refl,
  λ short lt. ground arith,
)

-- A base that was forced is what later calls give, whatever the device tree says, until another one
-- is forced; without a forced base the first call detects and later ones repeat it.
pub periph_base-forced :
    (file later : Option Bytes) (force : ℕ) (cached : Option ℕ)
    → (force ≢ 0 → (periph_base later 0 (periph_base file force cached).1).0 ≡ force)
      × ((periph_base later 0 (periph_base file 0 none).1).0 ≡ detect_periph_base file)
unfolding periph_base
periph_base-forced file later force cached = ((λ ne. ground arith), refl)
