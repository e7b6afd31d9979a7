-- ===== src/Spi/Fields.antt =====
-- The fields of the CS register of src/src/spi/spi.cpp, and the registers set whole.
use rpi3b.Base.{
  ℕ, suc, ◌+◌, ◌%◌, ◌^◌, ◌≤◌, ◌≡◌, ◌≢◌, ◌⊎◌, inl, inr, refl, sym, ap, ap₂, ◌∙◌, arith, Bool-cases,
  true, false, ◌||◌, if◌then◌else◌, ◌==◌, bit_and,
}
use rpi3b.Word.{bit_at, ◌>>◌}
use rpi3b.Word.Field.{bit_and_byte, bit_and_half_word, extract_field_lem, mask}
use rpi3b.Word.Single.{shifted-mod_two}
use rpi3b.Mmio.{Mmio}
use rpi3b.Mmio.Fields.{
  Field, FitsWord, Apart, get_field-set_field, get_field-set_field_ne, get_field-clr_field,
  get_field-clr_field_ne, set_field-value, clr_field-value, get_field, set_field, clr_field,
}
use rpi3b.Spi.Registers.{ControlStatus, cs_line, cpha, cpol, clear, ta, done, rxd, txd, cs_all}
use rpi3b.Spi.{
  cs_field, set_cs, clr_cs, get_cs, mode, chip_select, get_chip_select, clock_divider,
  get_clock_divider, clear_fifo, begin_transfer, end_transfer, write_byte, read_byte, is_done,
  can_write, can_read,
}

-- The layout: CS_LINE and CLEAR have two bits, the other fields one.
layout :
    (f : ControlStatus)
    → f ≢ cs_all
    → let s = (cs_field f).shift in
      ((cs_field f).width ≡ (if s == 0 || s == 4 then 2 else 1)) × (s ≢ 1) × (s ≢ 5) × (s ≤ 25)
layout f ne = ground arith

pub fits : (f : ControlStatus) → f ≢ cs_all → FitsWord (cs_field f)
fits f ne = let l = layout f ne in ground arith

apart_of_layout :
    (s w s' w' : ℕ)
    → w ≡ (if s == 0 || s == 4 then 2 else 1)
    → w' ≡ (if s' == 0 || s' == 4 then 2 else 1)
    → (s ≢ 1) × (s ≢ 5)
    → (s' ≢ 1) × (s' ≢ 5)
    → (s == s') ≡ false
    → (s' + w' ≤ s) ⊎ (s + w ≤ s')
apart_of_layout s w s' w' h h' n n' e = ground arith

apart :
    (f f' : ControlStatus)
    → f ≢ cs_all
    → f' ≢ cs_all
    → ((cs_field f).shift == (cs_field f').shift) ≡ false
    → Apart (cs_field f) (cs_field f')
apart f f' p q e =
    let l = layout f p in
    let l' = layout f' q in
    let fld = cs_field f in
    let fld' = cs_field f' in
    apart_of_layout fld.shift fld.width fld'.shift fld'.width l.0 l'.0 (l.1, l.2) (l'.1, l'.2) e

same_width :
    (s w s' w' : ℕ)
    → w ≡ (if s == 0 || s == 4 then 2 else 1)
    → w' ≡ (if s' == 0 || s' == 4 then 2 else 1)
    → (s == s') ≡ true
    → (s ≡ s') × (w ≡ w')
same_width s w s' w' h h' e = ground arith

same_field :
    (f f' : ControlStatus)
    → f ≢ cs_all
    → f' ≢ cs_all
    → ((cs_field f).shift == (cs_field f').shift) ≡ true
    → cs_field f ≡ cs_field f'
same_field f f' p q e =
    let fld = cs_field f in
    let fld' = cs_field f' in
    let eqs =
      same_width fld.shift fld.width fld'.shift fld'.width (layout f p).0 (layout f' q).0 e in
    ap₂ (λ (s w : ℕ). let r : Field = record { shift = s; width = w } in r) eqs.0 eqs.1

-- Storing a field and reading one, both told by the code's positions.
pub get_cs-set_cs :
    (m : Mmio) (f f' : ControlStatus) (v j : ℕ)
    → f ≢ cs_all
    → f' ≢ cs_all
    → let here = (cs_field f).shift == (cs_field f').shift in
      (get_cs (set_cs m f v) f' ≡ (if here then v % 2 ^ (cs_field f).width else get_cs m f'))
      × (get_cs (clr_cs m f) f' ≡ (if here then 0 else get_cs m f'))
      × ((set_cs m f v).value (suc j) ≡ m.value (suc j))
      × ((clr_cs m f).value (suc j) ≡ m.value (suc j))
unfolding get_cs set_cs clr_cs
get_cs-set_cs m f f' v j p q =
    let fld = cs_field f in
    let fld' = cs_field f' in
    let keep : (set_cs m f v).value (suc j) ≡ m.value (suc j) =
      ground (arith, set_field-value m 0 fld v (suc j)) in
    let keep' : (clr_cs m f).value (suc j) ≡ m.value (suc j) =
      ground (arith, clr_field-value m 0 fld (suc j)) in
    elim (Bool-cases (fld.shift == fld'.shift)) [
      | inl e ↦ rw e (
        ap (λ (t : Field). get_field (set_field m 0 fld v) 0 t) (sym (same_field f f' p q e))
            ∙ get_field-set_field m 0 fld v (fits f p),
        ap (λ (t : Field). get_field (clr_field m 0 fld) 0 t) (sym (same_field f f' p q e))
            ∙ get_field-clr_field m 0 fld (fits f p),
        keep,
        keep',
      )
      | inr e ↦ rw e (
        get_field-set_field_ne m 0 fld fld' v (fits f' q) (apart f f' p q e),
        get_field-clr_field_ne m 0 fld fld' (fits f' q) (apart f f' p q e),
        keep,
        keep',
      )
    ]

-- What `mode` makes of each field of CS.
abbrev pub moded : ℕ → ℕ → ControlStatus → ℕ → ℕ
moded polarity phase cpol old = polarity % 2
moded polarity phase cpha old = phase % 2
moded polarity phase _ old = old

-- `mode` sets the clock's polarity and phase to the lowest bits of its arguments, and keeps every
-- other field of CS and every other register.
pub mode-fields :
    (m : Mmio) (polarity phase j : ℕ) (f : ControlStatus)
    → f ≢ cs_all
    → (get_cs (mode m polarity phase) f ≡ moded polarity phase f (get_cs m f))
      × ((mode m polarity phase).value (suc j) ≡ m.value (suc j))
unfolding mode
mode-fields m polarity phase j f h = ground (
  arith,
  get_cs-set_cs (set_cs m cpol polarity) cpha f phase j (λ e. cc) h,
  get_cs-set_cs m cpol f polarity j (λ e. cc) h,
)

get_cs-bit :
    (m : Mmio) (f : ControlStatus)
    → (cs_field f).width ≡ 1
    → get_cs m f ≡ (if bit_at (m.value 0) (cs_field f).shift then 1 else 0)
unfolding get_cs get_field
get_cs-bit m f e =
    let r = m.value 0 in
    let s = (cs_field f).shift in
    ap (λ (w : ℕ). bit_and (r >> s) (mask w)) e
    ∙ extract_field_lem s 1 r (omega arith)
    ∙ shifted-mod_two r s

-- `is_done`, `can_write` and `can_read` are bits 16, 18 and 17 of CS. TA reads as 1 after
-- `begin_transfer` and as 0 after `end_transfer`, and neither changes `is_done`.
pub status-bits :
    (m : Mmio)
    → (is_done m ≡ bit_at (m.value 0) 16)
      × (can_write m ≡ bit_at (m.value 0) 18)
      × (can_read m ≡ bit_at (m.value 0) 17)
      × (get_cs (begin_transfer m) ta ≡ 1)
      × (get_cs (end_transfer m) ta ≡ 0)
      × (is_done (begin_transfer m) ≡ is_done m)
      × (is_done (end_transfer m) ≡ is_done m)
unfolding is_done can_write can_read begin_transfer end_transfer
status-bits m =
    let begun = get_cs-set_cs m ta done 1 0 (λ e. cc) (λ e. cc) in
    (
      ground (arith, get_cs-bit m done refl),
      ground (arith, get_cs-bit m txd refl),
      ground (arith, get_cs-bit m rxd refl),
      (get_cs-set_cs m ta ta 1 0 (λ e. cc) (λ e. cc)).0,
      (get_cs-set_cs m ta ta 1 0 (λ e. cc) (λ e. cc)).1,
      ap (λ (n : ℕ). n == 1) begun.0,
      ap (λ (n : ℕ). n == 1) begun.1,
    )

-- Each of these reads back what was set, cut to its width: 2 bits of the chip select, 16 of the
-- divider, 8 of a byte; and clearing the FIFOs sets both bits of CLEAR and keeps the chip select.
pub get-set_spi_registers :
    (m : Mmio) (v : ℕ)
    → (get_chip_select (chip_select m v) ≡ v % 4)
      × (get_clock_divider (clock_divider m v) ≡ v % 2 ^ 16)
      × (read_byte (write_byte m v) ≡ v % 2 ^ 8)
      × (get_cs (clear_fifo m) clear ≡ 3)
      × (get_chip_select (clear_fifo m) ≡ get_chip_select m)
unfolding chip_select get_chip_select clock_divider get_clock_divider read_byte write_byte
    clear_fifo
get-set_spi_registers m v = (
  (get_cs-set_cs m cs_line cs_line v 0 (λ e. cc) (λ e. cc)).0,
  omega (arith, bit_and_half_word v, bit_and_half_word (bit_and v 0xffff)),
  omega (arith, bit_and_byte v, bit_and_byte (bit_and v 0xff)),
  (get_cs-set_cs m clear clear 3 0 (λ e. cc) (λ e. cc)).0,
  (get_cs-set_cs m clear cs_line 3 0 (λ e. cc) (λ e. cc)).0,
)
