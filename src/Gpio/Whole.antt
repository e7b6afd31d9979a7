-- ===== src/Gpio/Whole.antt =====
-- The GPIO methods on whole registers (`write32`, `read32`, GPPUD, GPCLRn), and where stores go.
use rpi3b.Base.{
  ℕ, ◌/◌, ◌%◌, ◌^◌, ◌≤◌, ◌<◌, ◌≡◌, refl, ap, ◌==◌, if◌then◌else◌, arith, bit_and, bit_or, List, [],
  ◌∷◌,
}
use rpi3b.Word.{not32, ◌<<◌, ◌>>◌}
use rpi3b.Word.Field.{mask, extract_field, insert_field, extract_field-insert_field}
use rpi3b.Mmio.{Mmio}
use rpi3b.Gpio.Registers.{Config, PullUpDownConfig, off, pull_code, index, gppud, register_max}
use rpi3b.Gpio
use rpi3b.Gpio.{gpio_max, write, write32, read32, output, input, gpclrn, set_gppud, get_gppud}
use rpi3b.Gpio.Pins.{Bank, level, set_of}

-- `read32` gives the word that `write32` put into the register of any pin of the same register,
-- and otherwise what it gave before.
pub read32-write32 :
    (m : Mmio) (g g' v : ℕ)
    → g ≤ gpio_max
    → g' ≤ gpio_max
    → read32 (write32 m g v) g' ≡ (if g / 10 == g' / 10 then v else read32 m g')
unfolding read32 write32
read32-write32 m g g' v h h' = ground arith

set_gppud_word :
    (r : ℕ) (cfg : PullUpDownConfig)
    → bit_or (bit_and r (not32 3)) (bit_and 3 (pull_code cfg)) ≡ insert_field 0 2 (pull_code cfg) r
unfolding mask not32 ◌<<◌
set_gppud_word r off = refl
set_gppud_word r _ = refl

get_gppud_field : (m : Mmio) (g : ℕ) → get_gppud m g ≡ extract_field 0 2 (m.value (index gppud))
unfolding get_gppud mask not32 ◌<<◌ ◌>>◌
get_gppud_field m g = ap (λ (t : ℕ). bit_and t 3) (omega arith)

pull_code-mod : (cfg : PullUpDownConfig) → pull_code cfg % 2 ^ 2 ≡ pull_code cfg
pull_code-mod cfg = ground arith

-- GPPUD reads back the pull that was set last, whatever the pin numbers of the two calls. Setting
-- it replaces the two low bits of GPPUD and changes no other bit of any register.
pub get_gppud-set_gppud :
    (m : Mmio) (g g' j : ℕ) (cfg : PullUpDownConfig)
    → (get_gppud (set_gppud m g cfg) g' ≡ pull_code cfg)
      × ((set_gppud m g cfg).value j
          ≡ (if index gppud == j then insert_field 0 2 (pull_code cfg) (m.value j) else m.value j))
unfolding set_gppud
get_gppud-set_gppud m g g' j cfg = (
  ground (
    arith,
    get_gppud_field (set_gppud m g cfg) g',
    set_gppud_word (m.value (index gppud)) cfg,
    extract_field-insert_field 0 2 (pull_code cfg) (m.value (index gppud)) (omega arith),
    pull_code-mod cfg,
  ),
  ground (arith, set_gppud_word (m.value j) cfg),
)

-- Every store that was made went to a register of the block.
abbrev pub StoresBelow : ℕ → List (ℕ × ℕ) → Type 0
StoresBelow n [] = Unit
StoresBelow n ((i, v) ∷ rest) = (i < n) × StoresBelow n rest

-- Whatever its arguments, no method stores outside of the block of 45 registers.
pub gpio-StoresBelow :
    (b : Bank) (m : Mmio) (g v : ℕ) (cfg : Config) (pull : PullUpDownConfig)
    → StoresBelow register_max m.stores
    → StoresBelow register_max (set_of b m g).stores
      × StoresBelow register_max (gpclrn m g).stores
      × StoresBelow register_max (write m g cfg).stores
      × StoresBelow register_max (output m g).stores
      × StoresBelow register_max (input m g).stores
      × StoresBelow register_max (write32 m g v).stores
      × StoresBelow register_max (set_gppud m g pull).stores
unfolding write output input write32 gpclrn set_gppud Gpio.set_gplevn Gpio.gpsetn Gpio.set_gpedsn
    Gpio.set_gprenn Gpio.set_gpfenn Gpio.set_gphenn Gpio.set_gplenn Gpio.set_gparenn
    Gpio.set_gpafenn Gpio.set_gppudclkn
gpio-StoresBelow level m g v cfg pull h = ground arith
gpio-StoresBelow _ m g v cfg pull h = ground arith
