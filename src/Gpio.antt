-- ===== src/Gpio.antt =====
-- `class GPIO` of src/inc/gpio.hpp, with its methods from src/src/gpio/gpio.cpp. A method takes the
-- register block and returns the new one. A void method and the getter of its name are told apart
-- by `set_` and `get_`, as C++ does by their types; `GPGETn`, which has no such twin, is `gpgetn`.
pub mod Registers
pub mod Function
pub mod Pins
pub mod Whole
use rpi3b.Base.{ℕ, ◌-◌, ◌*◌, ◌/◌, ◌%◌, Bool, ltb, leb, if◌then◌else◌, bit_and, bit_or}
use rpi3b.Word.{not32, ◌<<◌, ◌>>◌}
use rpi3b.Mmio.{Mmio, load, store, or_assign, and_assign}
use rpi3b.Gpio.Registers.{
  Config, config_code, output_mode, PullUpDownConfig, pull_code, Register, index, gppud, gplev0,
  gplev1, gpclr0, gpclr1, gpset0, gpset1, gpeds0, gpeds1, gpren0, gpren1, gpfen0, gpfen1, gphen0,
  gphen1, gplen0, gplen1, gparen0, gparen1, gpafen0, gpafen1, gppudclk0, gppudclk1,
}

-- `GPIO_MAX`
abbrev pub gpio_max : ℕ
gpio_max = 53

abbrev pub valid : ℕ → Bool
valid g = leb g gpio_max

unfoldable pub write32 : Mmio → ℕ → ℕ → Mmio
unfolding store
write32 m gpio_n v = if valid gpio_n then store m (gpio_n / 10) v else m

-- The two statements that clear a function field and put `code` into it.
unfoldable pub select : Mmio → ℕ → ℕ → Mmio
unfolding and_assign or_assign
select m gpio_n code =
    let cleared = and_assign m (gpio_n / 10) (not32 (7 << (gpio_n % 10 * 3))) in
    or_assign cleared (gpio_n / 10) (code << (gpio_n % 10 * 3))

unfoldable pub write : Mmio → ℕ → Config → Mmio
unfolding select
write m gpio_n cfg = if valid gpio_n then select m gpio_n (config_code cfg) else m

unfoldable pub read32 : Mmio → ℕ → ℕ
unfolding load
read32 m gpio_n = if valid gpio_n then load m (gpio_n / 10) else 0

unfoldable pub read : Mmio → ℕ → ℕ
unfolding load
read m gpio_n =
    if valid gpio_n then bit_and (load m (gpio_n / 10) >> (gpio_n % 10 * 3)) 0b111 else 0

unfoldable pub output : Mmio → ℕ → Mmio
unfolding select
output m gpio_n = if valid gpio_n then select m gpio_n 1 else m

unfoldable pub input : Mmio → ℕ → Mmio
unfolding and_assign
input m gpio_n =
    if valid gpio_n then and_assign m (gpio_n / 10) (not32 (7 << (gpio_n % 10 * 3))) else m

-- The body that the methods on a pair of registers share: pins 0 to 31 are the bits of the first
-- register, the others those of the second.
unfoldable pub set_pin : Register → Register → Mmio → ℕ → Mmio
unfolding or_assign
set_pin low high m gpio_n =
    if valid gpio_n
    then if ltb gpio_n 32
      then or_assign m (index low) (1 << gpio_n)
      else or_assign m (index high) (1 << (gpio_n - 32))
    else m

unfoldable pub get_pin : Register → Register → Mmio → ℕ → ℕ
unfolding load
get_pin low high m gpio_n =
    if valid gpio_n
    then if ltb gpio_n 32
      then bit_and (load m (index low) >> gpio_n) 1
      else bit_and (load m (index high) >> (gpio_n - 32)) 1
    else 0

unfoldable pub get_gplevn : Mmio → ℕ → ℕ
unfolding get_pin
get_gplevn m gpio_n = get_pin gplev0 gplev1 m gpio_n

unfoldable pub set_gplevn : Mmio → ℕ → Mmio
unfolding set_pin
set_gplevn m gpio_n = set_pin gplev0 gplev1 m gpio_n

unfoldable pub gpclrn : Mmio → ℕ → Mmio
unfolding set_pin
gpclrn m gpio_n = set_pin gpclr0 gpclr1 m gpio_n

unfoldable pub gpsetn : Mmio → ℕ → Mmio
unfolding set_pin
gpsetn m gpio_n = set_pin gpset0 gpset1 m gpio_n

unfoldable pub gpgetn : Mmio → ℕ → ℕ
unfolding get_pin
gpgetn m gpio_n = get_pin gpset0 gpset1 m gpio_n

unfoldable pub set_gpedsn : Mmio → ℕ → Mmio
unfolding set_pin
set_gpedsn m gpio_n = set_pin gpeds0 gpeds1 m gpio_n

unfoldable pub get_gpedsn : Mmio → ℕ → ℕ
unfolding get_pin
get_gpedsn m gpio_n = get_pin gpeds0 gpeds1 m gpio_n

unfoldable pub set_gprenn : Mmio → ℕ → Mmio
unfolding set_pin
set_gprenn m gpio_n = set_pin gpren0 gpren1 m gpio_n

unfoldable pub get_gprenn : Mmio → ℕ → ℕ
unfolding get_pin
get_gprenn m gpio_n = get_pin gpren0 gpren1 m gpio_n

unfoldable pub set_gpfenn : Mmio → ℕ → Mmio
unfolding set_pin
set_gpfenn m gpio_n = set_pin gpfen0 gpfen1 m gpio_n

unfoldable pub get_gpfenn : Mmio → ℕ → ℕ
unfolding get_pin
get_gpfenn m gpio_n = get_pin gpfen0 gpfen1 m gpio_n

unfoldable pub set_gphenn : Mmio → ℕ → Mmio
unfolding set_pin
set_gphenn m gpio_n = set_pin gphen0 gphen1 m gpio_n

unfoldable pub get_gphenn : Mmio → ℕ → ℕ
unfolding get_pin
get_gphenn m gpio_n = get_pin gphen0 gphen1 m gpio_n

unfoldable pub set_gplenn : Mmio → ℕ → Mmio
unfolding set_pin
set_gplenn m gpio_n = set_pin gplen0 gplen1 m gpio_n

unfoldable pub get_gplenn : Mmio → ℕ → ℕ
unfolding get_pin
get_gplenn m gpio_n = get_pin gplen0 gplen1 m gpio_n

unfoldable pub set_gparenn : Mmio → ℕ → Mmio
unfolding set_pin
set_gparenn m gpio_n = set_pin gparen0 gparen1 m gpio_n

unfoldable pub get_gparenn : Mmio → ℕ → ℕ
unfolding get_pin
get_gparenn m gpio_n = get_pin gparen0 gparen1 m gpio_n

unfoldable pub set_gpafenn : Mmio → ℕ → Mmio
unfolding set_pin
set_gpafenn m gpio_n = set_pin gpafen0 gpafen1 m gpio_n

unfoldable pub get_gpafenn : Mmio → ℕ → ℕ
unfolding get_pin
get_gpafenn m gpio_n = get_pin gpafen0 gpafen1 m gpio_n

-- The pin number is not used: GPPUD is one control for all pins.
unfoldable pub set_gppud : Mmio → ℕ → PullUpDownConfig → Mmio
unfolding and_assign or_assign
set_gppud m gpio_n cfg =
    or_assign (and_assign m (index gppud) (not32 3)) (index gppud) (bit_and 3 (pull_code cfg))

unfoldable pub get_gppud : Mmio → ℕ → ℕ
unfolding load
get_gppud m gpio_n = bit_and (load m (index gppud)) 3

unfoldable pub set_gppudclkn : Mmio → ℕ → Mmio
unfolding set_pin
set_gppudclkn m gpio_n = set_pin gppudclk0 gppudclk1 m gpio_n

unfoldable pub get_gppudclkn : Mmio → ℕ → ℕ
unfolding get_pin
get_gppudclkn m gpio_n = get_pin gppudclk0 gppudclk1 m gpio_n
