-- ===== src/Clock/ReadBack.antt =====
-- Reading the clock control fields of src/src/clock/clock.cpp behind the stores of either set of
-- methods, with the registers as memory.
use rpi3b.Base.{ℕ, ◌%◌, ◌^◌, ◌≡◌, refl, sym, ap, ◌∙◌, if◌then◌else◌, arith, bit_or, some, none}
use rpi3b.Word.Field.{extract_field}
use rpi3b.Word.Merge.{extract_field-merge_field}
use rpi3b.Mmio.{Mmio, load}
use rpi3b.Clock.Registers.{
  Register, index, cm_gp0ctl, cm_gp0div, cm_gp1ctl, cm_gp1div, cm_gp2ctl, cm_gp2div, enab, kill,
}
use rpi3b.Clock.{
  set_cm_gpnctl, clr_cm_gpnctl, get_cm_gpnctl, put_ctl, take_ctl, write_ctl, read_ctl,
}
use rpi3b.Clock.Control.{
  put_ctl-merge_field, enable_clock, kill_clock, is_control, Stored, type_of, width,
  get_cm_gpnctl-extract_field, take_ctl-put_ctl, set_ctl-merge_bits, cleared_ctl,
}

-- `read` of a control field after `write` of it: for a control register, the bits that the field
-- had joined with the low bits of the value; for another register, the variable that is not set.
pub read_ctl-write_ctl :
    (m : Mmio) (reg : Register) (f : Stored) (v : ℕ)
    → read_ctl (write_ctl m reg (type_of f) v) reg (type_of f) ≡ (
        if is_control reg
        then some (bit_or (take_ctl reg m (type_of f)) (v % 2 ^ width f))
        else none)
unfolding read_ctl write_ctl
read_ctl-write_ctl m cm_gp0ctl f v = ap some (take_ctl-put_ctl cm_gp0ctl m f v)
read_ctl-write_ctl m cm_gp1ctl f v = ap some (take_ctl-put_ctl cm_gp1ctl m f v)
read_ctl-write_ctl m cm_gp2ctl f v = ap some (take_ctl-put_ctl cm_gp2ctl m f v)
read_ctl-write_ctl m cm_gp0div f v = refl
read_ctl-write_ctl m cm_gp1div f v = refl
read_ctl-write_ctl m cm_gp2div f v = refl

-- `get_CM_GPnCTL` of a field after `set_CM_GPnCTL` of it gives the bits that the field had joined
-- with the low bits of the value, and after `clr_CM_GPnCTL` of it 0.
pub get_cm_gpnctl-set_cm_gpnctl :
    (m : Mmio) (reg : Register) (f : Stored) (v : ℕ)
    → (get_cm_gpnctl (set_cm_gpnctl m reg (type_of f) v) reg (type_of f)
        ≡ bit_or (get_cm_gpnctl m reg (type_of f)) (v % 2 ^ width f))
      × (get_cm_gpnctl (clr_cm_gpnctl m reg (type_of f)) reg (type_of f) ≡ 0)
get_cm_gpnctl-set_cm_gpnctl m reg f v = (set_ctl-merge_bits reg m f v, cleared_ctl reg m f)

kill-put_enab :
    (reg : Register) (m : Mmio) (v : ℕ)
    → get_cm_gpnctl (put_ctl reg m enab v) reg kill ≡ bit_or (get_cm_gpnctl m reg kill) (v % 2)
kill-put_enab reg m v =
    get_cm_gpnctl-extract_field reg (put_ctl reg m enab v) kill_clock
    ∙ ap (λ (t : ℕ). extract_field 5 1 t) (put_ctl-merge_field m reg v enable_clock)
    ∙ extract_field-merge_field 5 1 v (load m (index reg)) (omega arith)
    ∙ ap (λ (t : ℕ). bit_or t (v % 2)) (sym (get_cm_gpnctl-extract_field reg m kill_clock))

-- The bit that `write` stores for ENAB is the one that `get_CM_GPnCTL` reads as KILL: after `write`
-- of ENAB to a control register, KILL reads as it was joined with the lowest bit of the value.
pub kill-write_enab :
    (m : Mmio) (reg : Register) (v : ℕ)
    → get_cm_gpnctl (write_ctl m reg enab v) reg kill ≡ (
        if is_control reg
        then bit_or (get_cm_gpnctl m reg kill) (v % 2)
        else get_cm_gpnctl m reg kill)
unfolding write_ctl
kill-write_enab m cm_gp0ctl v = kill-put_enab cm_gp0ctl m v
kill-write_enab m cm_gp1ctl v = kill-put_enab cm_gp1ctl m v
kill-write_enab m cm_gp2ctl v = kill-put_enab cm_gp2ctl m v
kill-write_enab m cm_gp0div v = refl
kill-write_enab m cm_gp1div v = refl
kill-write_enab m cm_gp2div v = refl
