-- ===== src/Spi/Positions.antt =====
-- The fields of the CS register of src/src/spi/spi.cpp, at the positions that src/inc/memory_map.hpp
-- describes.
use rpi3b.Base.{
  ℕ, suc, ◌/◌, ◌%◌, ◌^◌, ◌≡◌, ◌≢◌, ap₂, ◌∙◌, arith, Bool, true, false, ◌==◌, if◌then◌else◌,
}
use rpi3b.Word.{◌>>◌}
use rpi3b.Word.Field.{bit_and-mask}
use rpi3b.Mmio.{Mmio}
use rpi3b.Mmio.Fields.{get_field}
use rpi3b.Spi.Registers.{
  ControlStatus, cs_line, cpha, cpol, clear, cspol, ta, dmaen, intd, intr, adcs, ren, len, lmono,
  te_en, done, rxd, txd, rxr, rxf, cspol0, cspol1, cspol2, dma_len, len_long, cs_all,
}
use rpi3b.Spi.{cs_field, set_cs, clr_cs, get_cs}
use rpi3b.Spi.Fields.{fits, get_cs-set_cs}

-- The first bit and the width of each field, from the register's description in
-- src/inc/memory_map.hpp.
abbrev pub first_bit : ControlStatus → ℕ
first_bit cs_line = 0
first_bit cpha = 2
first_bit cpol = 3
first_bit clear = 4
first_bit cspol = 6
first_bit ta = 7
first_bit dmaen = 8
first_bit intd = 9
first_bit intr = 10
first_bit adcs = 11
first_bit ren = 12
first_bit len = 13
first_bit lmono = 14
first_bit te_en = 15
first_bit done = 16
first_bit rxd = 17
first_bit txd = 18
first_bit rxr = 19
first_bit rxf = 20
first_bit cspol0 = 21
first_bit cspol1 = 22
first_bit cspol2 = 23
first_bit dma_len = 24
first_bit len_long = 25
first_bit cs_all = 0

abbrev pub bits : ControlStatus → ℕ
bits cs_line = 2
bits clear = 2
bits cs_all = 32
bits _ = 1

-- The fields that keep what is stored: not the whole, nor those that are described as read-only,
-- nor CLEAR, which is a command to the FIFOs.
abbrev pub is_kept : ControlStatus → Bool
is_kept clear = false
is_kept done = false
is_kept rxd = false
is_kept txd = false
is_kept rxr = false
is_kept rxf = false
is_kept cs_all = false
is_kept _ = true

cs_field_lem :
    (f : ControlStatus)
    → f ≢ cs_all
    → ((cs_field f).shift ≡ first_bit f) × ((cs_field f).width ≡ bits f)
cs_field_lem f ne = ground arith

get_cs_lem :
    (m : Mmio) (f : ControlStatus)
    → f ≢ cs_all
    → get_cs m f ≡ m.value 0 / 2 ^ first_bit f % 2 ^ bits f
unfolding get_cs get_field ◌>>◌
get_cs_lem m f ne =
    let (at, wide) = cs_field_lem f ne in
    bit_and-mask (cs_field f).width (m.value 0 / 2 ^ (cs_field f).shift) (omega (arith, fits f ne))
    ∙ ap₂ (λ (s w : ℕ). m.value 0 / 2 ^ s % 2 ^ w) at wide

-- By the positions in the description of CS: `get_cs` gives the bits of the field, for every field
-- but the whole. For a field that keeps what is stored, `set_cs` makes its bits the low ones of the
-- value, `clr_cs` makes them 0, and both keep the bits of every field that starts elsewhere. No
-- register but CS changes.
pub cs-bits :
    (m : Mmio) (f f' : ControlStatus) (v j : ℕ)
    → is_kept f ≡ true
    → f' ≢ cs_all
    → let here = first_bit f == first_bit f' in
      (get_cs m f' ≡ m.value 0 / 2 ^ first_bit f' % 2 ^ bits f')
      × (get_cs (set_cs m f v) f' ≡ (if here then v % 2 ^ bits f else get_cs m f'))
      × (get_cs (clr_cs m f) f' ≡ (if here then 0 else get_cs m f'))
      × ((set_cs m f v).value (suc j) ≡ m.value (suc j))
      × ((clr_cs m f).value (suc j) ≡ m.value (suc j))
cs-bits m f f' v j kept q =
    let p : f ≢ cs_all = λ e. cc in
    let (stored, cleared, keep, keep') = get_cs-set_cs m f f' v j p q in
    let (at, wide) = cs_field_lem f p in
    let (at', wide') = cs_field_lem f' q in
    (get_cs_lem m f' q, ground arith, ground arith, keep, keep')
