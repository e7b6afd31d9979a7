-- ===== src/Mmio/Fields.antt =====
-- Bit fields of a register: the read-modify-write that `I2C::set_control` and `SPI::set_cs` make,
-- with what it leaves in the field, in the other fields and in the other registers.
use rpi3b.Base.{ℕ, ◌+◌, ◌%◌, ◌^◌, ◌≤◌, ◌≡◌, ◌⊎◌, ◌==◌, if◌then◌else◌, arith, bit_and}
use native.Mathlib.Nat.{zero-mod}
use rpi3b.Word.{not32, ◌<<◌, ◌>>◌}
use rpi3b.Word.Field.{mask, insert_field, extract_field-insert_field, extract_field-insert_field_ne}
use rpi3b.Word.Single.{zero_<<, bit_or-zero, zero-bit_and}
use rpi3b.Mmio.{Mmio, load, or_assign, and_assign}

-- The position of a field in its register.
pub record Field : Type 0 where
  pub shift : ℕ
  pub width : ℕ

unfoldable pub set_field : Mmio → ℕ → Field → ℕ → Mmio
unfolding and_assign or_assign
set_field m reg fld v =
    let cleared = and_assign m reg (not32 (mask fld.width << fld.shift)) in
    or_assign cleared reg (bit_and v (mask fld.width) << fld.shift)

unfoldable pub clr_field : Mmio → ℕ → Field → Mmio
unfolding and_assign
clr_field m reg fld = and_assign m reg (not32 (mask fld.width << fld.shift))

unfoldable pub get_field : Mmio → ℕ → Field → ℕ
unfolding load
get_field m reg fld = bit_and (load m reg >> fld.shift) (mask fld.width)

abbrev pub FitsWord : Field → Type 0
FitsWord fld = fld.shift + fld.width ≤ 32

abbrev pub Apart : Field → Field → Type 0
Apart p q = (q.shift + q.width ≤ p.shift) ⊎ (p.shift + p.width ≤ q.shift)

pub set_field-value :
    (m : Mmio) (reg : ℕ) (fld : Field) (v j : ℕ)
    → (set_field m reg fld v).value j
      ≡ (if reg == j then insert_field fld.shift fld.width v (m.value j) else m.value j)
unfolding set_field
set_field-value m reg fld v j = ground arith

bit_and-zero_mask : (w : ℕ) → bit_and 0 (mask w) ≡ 0
bit_and-zero_mask w = zero-bit_and (mask w)

pub clr_field-value :
    (m : Mmio) (reg : ℕ) (fld : Field) (j : ℕ)
    → (clr_field m reg fld).value j
      ≡ (if reg == j then insert_field fld.shift fld.width 0 (m.value j) else m.value j)
unfolding clr_field
clr_field-value m reg fld j = ground (
  arith,
  bit_and-zero_mask fld.width,
  zero_<< fld.shift,
  bit_or-zero (bit_and (m.value j) (not32 (mask fld.width << fld.shift))),
)

pub get_field-set_field :
    (m : Mmio) (reg : ℕ) (fld : Field) (v : ℕ)
    → FitsWord fld
    → get_field (set_field m reg fld v) reg fld ≡ v % 2 ^ fld.width
unfolding get_field
get_field-set_field m reg fld v h = ground (
  arith,
  set_field-value m reg fld v reg,
  extract_field-insert_field fld.shift fld.width v (m.value reg),
)

pub get_field-set_field_ne :
    (m : Mmio) (reg : ℕ) (fld fld' : Field) (v : ℕ)
    → FitsWord fld'
    → Apart fld fld'
    → get_field (set_field m reg fld v) reg fld' ≡ get_field m reg fld'
unfolding get_field
get_field-set_field_ne m reg fld fld' v h apart = ground (
  arith,
  set_field-value m reg fld v reg,
  extract_field-insert_field_ne fld.shift fld.width fld'.shift fld'.width v (m.value reg) h apart,
)

pub get_field-clr_field :
    (m : Mmio) (reg : ℕ) (fld : Field) → FitsWord fld → get_field (clr_field m reg fld) reg fld ≡ 0
unfolding get_field
get_field-clr_field m reg fld h = ground (
  arith,
  clr_field-value m reg fld reg,
  extract_field-insert_field fld.shift fld.width 0 (m.value reg),
  zero-mod (2 ^ fld.width),
)

pub get_field-clr_field_ne :
    (m : Mmio) (reg : ℕ) (fld fld' : Field)
    → FitsWord fld'
    → Apart fld fld'
    → get_field (clr_field m reg fld) reg fld' ≡ get_field m reg fld'
unfolding get_field
get_field-clr_field_ne m reg fld fld' h apart = ground (
  arith,
  clr_field-value m reg fld reg,
  extract_field-insert_field_ne fld.shift fld.width fld'.shift fld'.width 0 (m.value reg) h apart,
)
