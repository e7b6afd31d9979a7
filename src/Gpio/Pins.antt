-- ===== src/Gpio/Pins.antt =====
-- The methods that set and read one bit per pin, in src/src/gpio/gpio.cpp: GPLEVn, GPSETn and
-- GPGETn, GPCLRn, GPEDSn, the six detect enables and GPPUDCLKn.
use rpi3b.Base.{
  ℕ, ◌+◌, ◌/◌, ◌%◌, ◌^◌, ◌≤◌, ◌<◌, ◌≡◌, Bool, true, false, ◌&&◌, ◌==◌, if◌then◌else◌, arith,
  bit_and, bit_or, ◌⊎◌, Option, some,
}
use rpi3b.Word.{not32, ◌<<◌, bit_at}
use rpi3b.Word.Bits.{bit_at-bit_and}
use rpi3b.Word.Shift.{bit_at-not32}
use rpi3b.Word.Field.{bit_or-lt, <<-lt}
use rpi3b.Word.Single.{bit_and_one, bit_at-bit_or_one}
use mathlib.Core.List.{head?}
use rpi3b.Mmio.{Mmio, IsWords}
use rpi3b.Gpio.Registers.{Config}
use rpi3b.Gpio.{
  gpio_max, read, read32, write, write32, output, input, get_gplevn, set_gplevn, gpclrn, gpsetn,
  gpgetn, set_gpedsn, get_gpedsn, set_gprenn, get_gprenn, set_gpfenn, get_gpfenn, set_gphenn,
  get_gphenn, set_gplenn, get_gplenn, set_gparenn, get_gparenn, set_gpafenn, get_gpafenn,
  set_gppudclkn, get_gppudclkn,
}

-- The pairs of registers that a method sets and another reads.
pub data Bank : Type 0 where
  level output_set event rising falling high low async_rising async_falling pull_clock : Bank

abbrev pub set_of : Bank → Mmio → ℕ → Mmio
set_of level = set_gplevn
set_of output_set = gpsetn
set_of event = set_gpedsn
set_of rising = set_gprenn
set_of falling = set_gpfenn
set_of high = set_gphenn
set_of low = set_gplenn
set_of async_rising = set_gparenn
set_of async_falling = set_gpafenn
set_of pull_clock = set_gppudclkn

abbrev pub get_of : Bank → Mmio → ℕ → ℕ
get_of level = get_gplevn
get_of output_set = gpgetn
get_of event = get_gpedsn
get_of rising = get_gprenn
get_of falling = get_gpfenn
get_of high = get_gphenn
get_of low = get_gplenn
get_of async_rising = get_gparenn
get_of async_falling = get_gpafenn
get_of pull_clock = get_gppudclkn

-- The offset in words of the bank's first register, from the datasheet's table of addresses.
abbrev pub base : Bank → ℕ
base level = 0x34 / 4
base output_set = 0x1c / 4
base event = 0x40 / 4
base rising = 0x4c / 4
base falling = 0x58 / 4
base high = 0x64 / 4
base low = 0x70 / 4
base async_rising = 0x7c / 4
base async_falling = 0x88 / 4
base pull_clock = 0x98 / 4

-- The banks whose registers give back what was stored: GPLEVn give the levels of the pins, a bit of
-- GPEDSn is cleared by writing 1 to it, and GPSETn only take stores.
abbrev pub is_held : Bank → Bool
is_held level = false
is_held event = false
is_held output_set = false
is_held _ = true

banks_apart : (b : Bank) → (base b ≡ 38) ⊎ ((base b % 3 ≡ 1) × (base b ≤ 34))
banks_apart b = ground arith

set_of-value :
    (b : Bank) (m : Mmio) (g j : ℕ)
    → g ≤ gpio_max
    → (set_of b m g).value j
      ≡ (if base b + g / 32 == j then bit_or (m.value j) (1 << (g % 32)) else m.value j)
unfolding set_gplevn gpsetn set_gpedsn set_gprenn set_gpfenn set_gphenn set_gplenn set_gparenn
    set_gpafenn set_gppudclkn
set_of-value level m g j h = ground arith
set_of-value _ m g j h = ground arith

get_of-bit :
    (b : Bank) (m : Mmio) (g : ℕ)
    → g ≤ gpio_max
    → get_of b m g ≡ (if bit_at (m.value (base b + g / 32)) (g % 32) then 1 else 0)
unfolding get_gplevn gpgetn get_gpedsn get_gprenn get_gpfenn get_gphenn get_gplenn get_gparenn
    get_gpafenn get_gppudclkn
get_of-bit level m g h = ground (arith, bit_and_one (m.value (base level + g / 32)) (g % 32))
get_of-bit b m g h = ground (arith, bit_and_one (m.value (base b + g / 32)) (g % 32))

-- For pins 0 to 53 and the banks that give back what was stored, the six detect enables and
-- GPPUDCLKn: after the set method of one bank, the get method of any of them gives 1 for the pin
-- that was set in that bank, and what it gave before for every other pin and bank.
pub get_of-set_of :
    (b b' : Bank) (m : Mmio) (g g' : ℕ)
    → is_held b ≡ true
    → is_held b' ≡ true
    → g ≤ gpio_max
    → g' ≤ gpio_max
    → get_of b' (set_of b m g) g' ≡ (if base b == base b' && g == g' then 1 else get_of b' m g')
get_of-set_of b b' m g g' held held' h h' = ground (
  arith,
  get_of-bit b' (set_of b m g) g' h',
  get_of-bit b' m g' h',
  set_of-value b m g (base b' + g' / 32) h,
  bit_at-bit_or_one (m.value (base b' + g' / 32)) (g % 32) (g' % 32) (omega arith),
  banks_apart b,
  banks_apart b',
)

-- A pin number above 53 changes nothing, reads as 0 and stores nothing, by every method of the
-- driver that takes one as an index.
pub invalid_pin :
    (b : Bank) (m : Mmio) (g v : ℕ) (cfg : Config)
    → gpio_max < g
    → (set_of b m g ≡ m)
      × (gpclrn m g ≡ m)
      × (write m g cfg ≡ m)
      × (output m g ≡ m)
      × (input m g ≡ m)
      × (write32 m g v ≡ m)
      × (get_of b m g ≡ 0)
      × (read m g ≡ 0)
      × (read32 m g ≡ 0)
unfolding write output input write32 read read32 gpclrn set_gplevn gpsetn set_gpedsn set_gprenn
    set_gpfenn set_gphenn set_gplenn set_gparenn set_gpafenn set_gppudclkn get_gplevn gpgetn
    get_gpedsn get_gprenn get_gpfenn get_gphenn get_gplenn get_gparenn get_gpafenn get_gppudclkn
invalid_pin level m g v cfg h = ground arith
invalid_pin _ m g v cfg h = ground arith

-- What a register of write-1-to-clear bits holds after a store of `v`.
abbrev pub write_one_to_clear : ℕ → ℕ → ℕ
write_one_to_clear r v = bit_and r (not32 v)

-- The word that the latest store put into a register.
abbrev pub last_store : Mmio → Option (ℕ × ℕ)
last_store m = head? m.stores

-- GPEDSn acknowledges an event by a read and a store of the whole register. In a register whose
-- bits are cleared by writing 1, that store clears the pending events of all pins of the bank,
-- whichever valid pin it was called for, and not that of the pin alone.
pub set_gpedsn_clears_bank :
    (m : Mmio) (g i : ℕ)
    → g ≤ gpio_max
    → i < 32
    → IsWords m
    → (v : ℕ) × (last_store (set_gpedsn m g) ≡ some (base event + g / 32, v))
      × (bit_at (write_one_to_clear (m.value (base event + g / 32)) v) i ≡ false)
unfolding set_gpedsn
set_gpedsn_clears_bank m g i h h' w =
    let r = m.value (base event + g / 32) in
    let v = bit_or r (1 << (g % 32)) in
    let small : v < 2 ^ 32 = bit_or-lt 32 r (1 << (g % 32)) (w _) (<<-lt 1 (g % 32)) in
    (
      v,
      ground arith,
      ground (
        arith,
        bit_at-bit_and r (not32 v) i,
        bit_at-not32 v i small,
        bit_at-bit_or_one r (g % 32) i (omega arith),
      ),
    )
