-- ===== src/Clock/Sources.antt =====
-- The clock sources and the noise-shaping stages of src/inc/memory_map.hpp, as the values of the
-- SRC and MASH fields of src/src/clock/clock.cpp.
use rpi3b.Base.{ℕ, ◌%◌, ◌^◌, ◌≡◌, refl, ap, ◌∙◌, bit_or}
use rpi3b.Mmio.{Mmio}
use rpi3b.Clock.Registers.{Register, src, mash}
use rpi3b.Clock.{set_cm_gpnctl, clr_cm_gpnctl, get_cm_gpnctl}
use rpi3b.Clock.Control.{
  Stored, clock_source, mash_stages, type_of, width, set_ctl-merge_bits, cleared_ctl,
}
use rpi3b.Clock.Cleared.{zero-bit_or}

data ClockSource : Type 0 where
  ground_level oscillator testdebug0 testdebug1 plla pllc plld hdmi_auxiliary : ClockSource

abbrev source_code : ClockSource → ℕ
source_code ground_level = 0
source_code oscillator = 1
source_code testdebug0 = 2
source_code testdebug1 = 3
source_code plla = 4
source_code pllc = 5
source_code plld = 6
source_code hdmi_auxiliary = 7

data ClockMash : Type 0 where
  integer_division stage1_mash stage2_mash stage3_mash : ClockMash

abbrev mash_code : ClockMash → ℕ
mash_code integer_division = 0
mash_code stage1_mash = 1
mash_code stage2_mash = 2
mash_code stage3_mash = 3

source_code-fits : (s : ClockSource) → source_code s % 2 ^ 4 ≡ source_code s
source_code-fits ground_level = refl
source_code-fits oscillator = refl
source_code-fits testdebug0 = refl
source_code-fits testdebug1 = refl
source_code-fits plla = refl
source_code-fits pllc = refl
source_code-fits plld = refl
source_code-fits hdmi_auxiliary = refl

mash_code-fits : (k : ClockMash) → mash_code k % 2 ^ 2 ≡ mash_code k
mash_code-fits integer_division = refl
mash_code-fits stage1_mash = refl
mash_code-fits stage2_mash = refl
mash_code-fits stage3_mash = refl

-- Clearing a control field and setting it gives the value, cut to the width of the field.
get-set-clr :
    (m : Mmio) (reg : Register) (f : Stored) (v : ℕ)
    → get_cm_gpnctl
        (set_cm_gpnctl (clr_cm_gpnctl m reg (type_of f)) reg (type_of f) v)
        reg
        (type_of f)
      ≡ v % 2 ^ width f
get-set-clr m reg f v =
    set_ctl-merge_bits reg (clr_cm_gpnctl m reg (type_of f)) f v
    ∙ ap (λ (t : ℕ). bit_or t (v % 2 ^ width f)) (cleared_ctl reg m f)
    ∙ zero-bit_or (v % 2 ^ width f)

-- After clearing SRC, a clock source that is set is the one that is read.
get-set-source :
    (m : Mmio) (reg : Register) (s : ClockSource)
    → get_cm_gpnctl (set_cm_gpnctl (clr_cm_gpnctl m reg src) reg src (source_code s)) reg src
      ≡ source_code s
get-set-source m reg s = get-set-clr m reg clock_source (source_code s) ∙ source_code-fits s

-- After clearing MASH, the stages that are set are the ones that are read.
get-set-mash :
    (m : Mmio) (reg : Register) (k : ClockMash)
    → get_cm_gpnctl (set_cm_gpnctl (clr_cm_gpnctl m reg mash) reg mash (mash_code k)) reg mash
      ≡ mash_code k
get-set-mash m reg k = get-set-clr m reg mash_stages (mash_code k) ∙ mash_code-fits k
