-- ===== src/Clock/Control.antt =====
-- The clock control fields of src/src/clock/clock.cpp. The two sets of methods place the fields
-- differently: ENAB, KILL and MASH at bits 4, 5 and 8, or at bits 5, 6 and 10.
use rpi3b.Base.{
  ℕ, ◌+◌, ◌-◌, ◌%◌, ◌^◌, ◌≤◌, ◌≡◌, refl, sym, ap, ◌∙◌, Bool, true, false, arith, bit_and, bit_or,
}
use rpi3b.Word.{not32, ◌<<◌}
use rpi3b.Word.Field.{mask, extract_field, bit_at-mask, <<-lt}
use rpi3b.Word.Shift.{bit_at-not32, bit_at-<<}
use rpi3b.Word.Merge.{bit_and_comm, merge_field, extract_field-merge_field}
use rpi3b.Mmio.{Mmio, load}
use rpi3b.Mmio.Laws.{load-or_assign, load-and_assign}
use rpi3b.Clock.Registers.{
  Register, index, cm_gp0ctl, cm_gp1ctl, cm_gp2ctl, CtlType, src, enab, kill, mash,
}
use rpi3b.Clock.Cleared.{cleared_field}
use rpi3b.Clock.Divisor.{shr_zero, masked_unshifted}
use rpi3b.Clock.{low_ones, set_cm_gpnctl, clr_cm_gpnctl, get_cm_gpnctl, put_ctl, take_ctl}

-- Which registers hold a clock control word.
abbrev pub is_control : Register → Bool
is_control cm_gp0ctl = true
is_control cm_gp1ctl = true
is_control cm_gp2ctl = true
is_control _ = false

-- The four fields that can be stored.
pub data Stored : Type 0 where
  clock_source enable_clock kill_clock mash_stages : Stored

abbrev pub type_of : Stored → CtlType
type_of clock_source = src
type_of enable_clock = enab
type_of kill_clock = kill
type_of mash_stages = mash

abbrev pub width : Stored → ℕ
width clock_source = 4
width enable_clock = 1
width kill_clock = 1
width mash_stages = 2

-- Where `set_CM_GPnCTL` and `get_CM_GPnCTL` place them.
abbrev pub low_position : Stored → ℕ
low_position clock_source = 0
low_position enable_clock = 4
low_position kill_clock = 5
low_position mash_stages = 8

-- Where `write` and `read` place them.
abbrev pub high_position : Stored → ℕ
high_position clock_source = 0
high_position enable_clock = 5
high_position kill_clock = 6
high_position mash_stages = 10

pub masks :
    (low_ones 4 ≡ mask 4)
    × (low_ones 2 ≡ mask 2)
    × (1 ≡ mask 1)
    × (0b11 ≡ mask 2)
    × (0b1111 ≡ mask 4)
unfolding mask not32 ◌<<◌
masks = (refl, refl, refl, refl, refl)

masked_source : (v : ℕ) → bit_and (low_ones 4) v ≡ bit_and v (mask 4) << 0
masked_source v =
    bit_and_comm (low_ones 4) v
    ∙ ap (λ (t : ℕ). bit_and v t) masks.0
    ∙ sym (masked_unshifted 4 v (omega arith))

module _ (m : Mmio) (reg : Register) (v : ℕ) where
  pub put_ctl-merge_field :
      (f : Stored)
      → load (put_ctl reg m (type_of f) v) (index reg)
        ≡ merge_field (high_position f) (width f) v (load m (index reg))
  unfolding put_ctl mask not32 ◌<<◌
  put_ctl-merge_field clock_source =
      load-or_assign m (index reg) (bit_and (low_ones 4) v) (index reg)
      ∙ ground (arith, masked_source v)
  put_ctl-merge_field enable_clock =
      load-or_assign m (index reg) (bit_and v 1 << 5) (index reg) ∙ ground arith
  put_ctl-merge_field kill_clock =
      load-or_assign m (index reg) (bit_and v 1 << 6) (index reg) ∙ ground arith
  put_ctl-merge_field mash_stages =
      load-or_assign m (index reg) (bit_and v (low_ones 2) << 10) (index reg) ∙ ground arith

  set_cm_gpnctl-merge_field :
      (f : Stored)
      → load (set_cm_gpnctl m reg (type_of f) v) (index reg)
        ≡ merge_field (low_position f) (width f) v (load m (index reg))
  unfolding set_cm_gpnctl mask not32 ◌<<◌
  set_cm_gpnctl-merge_field clock_source =
      load-or_assign m (index reg) (bit_and (low_ones 4) v) (index reg)
      ∙ ground (arith, masked_source v)
  set_cm_gpnctl-merge_field enable_clock =
      load-or_assign m (index reg) (bit_and v 1 << 4) (index reg) ∙ ground arith
  set_cm_gpnctl-merge_field kill_clock =
      load-or_assign m (index reg) (bit_and v 1 << 5) (index reg) ∙ ground arith
  set_cm_gpnctl-merge_field mash_stages =
      load-or_assign m (index reg) (bit_and v 0b11 << 8) (index reg) ∙ ground arith

pub take_ctl-extract_field :
    (reg : Register) (m : Mmio) (f : Stored)
    → take_ctl reg m (type_of f) ≡ extract_field (high_position f) (width f) (load m (index reg))
unfolding take_ctl mask not32 ◌<<◌
take_ctl-extract_field reg m clock_source = rw (shr_zero (load m (index reg))) refl
take_ctl-extract_field reg m enable_clock = refl
take_ctl-extract_field reg m kill_clock = refl
take_ctl-extract_field reg m mash_stages = refl

pub get_cm_gpnctl-extract_field :
    (reg : Register) (m : Mmio) (f : Stored)
    → get_cm_gpnctl m reg (type_of f)
      ≡ extract_field (low_position f) (width f) (load m (index reg))
unfolding get_cm_gpnctl mask not32 ◌<<◌
get_cm_gpnctl-extract_field reg m clock_source = rw (shr_zero (load m (index reg))) refl
get_cm_gpnctl-extract_field reg m enable_clock = refl
get_cm_gpnctl-extract_field reg m kill_clock = refl
get_cm_gpnctl-extract_field reg m mash_stages = refl

pub position-width :
    (f : Stored) → (low_position f + width f ≤ 32) × (high_position f + width f ≤ 32)
position-width f = ground arith

pub take_ctl-put_ctl :
    (reg : Register) (m : Mmio) (f : Stored) (v : ℕ)
    → take_ctl reg (put_ctl reg m (type_of f) v) (type_of f)
      ≡ bit_or (take_ctl reg m (type_of f)) (v % 2 ^ width f)
take_ctl-put_ctl reg m f v =
    let r = load m (index reg) in
    take_ctl-extract_field reg (put_ctl reg m (type_of f) v) f
    ∙ ap (λ (t : ℕ). extract_field (high_position f) (width f) t) (put_ctl-merge_field m reg v f)
    ∙ extract_field-merge_field (high_position f) (width f) v r (position-width f).1
    ∙ ap (λ (t : ℕ). bit_or t (v % 2 ^ width f)) (sym (take_ctl-extract_field reg m f))

pub set_ctl-merge_bits :
    (reg : Register) (m : Mmio) (f : Stored) (v : ℕ)
    → get_cm_gpnctl (set_cm_gpnctl m reg (type_of f) v) reg (type_of f)
      ≡ bit_or (get_cm_gpnctl m reg (type_of f)) (v % 2 ^ width f)
set_ctl-merge_bits reg m f v =
    let r = load m (index reg) in
    get_cm_gpnctl-extract_field reg (set_cm_gpnctl m reg (type_of f) v) f
    ∙ ap (λ (t : ℕ). extract_field (low_position f) (width f) t)
        (set_cm_gpnctl-merge_field m reg v f)
    ∙ extract_field-merge_field (low_position f) (width f) v r (position-width f).0
    ∙ ap (λ (t : ℕ). bit_or t (v % 2 ^ width f)) (sym (get_cm_gpnctl-extract_field reg m f))

clr_cm_gpnctl-value :
    (reg : Register) (m : Mmio) (f : Stored)
    → load (clr_cm_gpnctl m reg (type_of f)) (index reg)
      ≡ bit_and (load m (index reg)) (not32 (mask (width f) << low_position f))
unfolding clr_cm_gpnctl mask not32 ◌<<◌
clr_cm_gpnctl-value reg m clock_source =
    load-and_assign m (index reg) (not32 0b1111 << 0) (index reg) ∙ ground arith
clr_cm_gpnctl-value reg m enable_clock =
    load-and_assign m (index reg) (not32 (1 << 4)) (index reg) ∙ ground arith
clr_cm_gpnctl-value reg m kill_clock =
    load-and_assign m (index reg) (not32 (1 << 5)) (index reg) ∙ ground arith
clr_cm_gpnctl-value reg m mash_stages =
    load-and_assign m (index reg) (not32 (0b11 << 8)) (index reg) ∙ ground arith

pub cleared_ctl :
    (reg : Register) (m : Mmio) (f : Stored)
    → get_cm_gpnctl (clr_cm_gpnctl m reg (type_of f)) reg (type_of f) ≡ 0
cleared_ctl reg m f =
    let s = low_position f in
    let w = width f in
    let fits = (position-width f).0 in
    get_cm_gpnctl-extract_field reg (clr_cm_gpnctl m reg (type_of f)) f
    ∙ ap (λ (t : ℕ). extract_field s w t) (clr_cm_gpnctl-value reg m f)
    ∙ cleared_field s w (load m (index reg)) (not32 (mask w << s)) (omega arith) λ i lt. ground (
      arith,
      bit_at-not32 (mask w << s) (i + s) (<<-lt (mask w) s),
      bit_at-<< (mask w) s (i + s),
      bit_at-mask w (i + s - s),
    )
