-- ===== src/Devices.antt =====
-- Where the bare-metal program finds the registers: the `operator new` of the blocks in
-- src/inc/memory_map.hpp when no region is given, with the base `BCM_PERIPH_BASE`, and `kBase` of
-- freestanding/uart.cpp; and what the constructor of the interrupt registers prints.
pub mod Apart
pub mod Reached
pub mod Announced
use rpi3b.Base.{ℕ, zero, suc, ◌+◌, ◌*◌, ◌-◌, Option, none, some, [], ◌∷◌, ◌++◌}
use rpi3b.Base.Text.{Bytes, codes, ◌>>=◌}
use rpi3b.Mapping.{operator_new, gpio_block, clock_block, i2c_block, spi_block}
use rpi3b.Printf.{printf, word}

-- The default of `BCM_PERIPH_BASE`, and of `BCM_LOCAL_BASE`.
abbrev pub bcm_periph_base : ℕ
bcm_periph_base = 0x3F000000

abbrev pub bcm_local_base : ℕ
bcm_local_base = 0x40000000

pub data Device : Type 0 where
  gpio clock interrupts arm_local bsc spi uart : Device

-- The number of registers of a block: `sizeof` of it in words, and for the UART the registers up to
-- the last one that is used.
abbrev pub device_words : Device → ℕ
device_words gpio = 45
device_words clock = 6
device_words interrupts = 10
device_words arm_local = 32
device_words bsc = 8
device_words spi = 6
device_words uart = 18

abbrev pub new_interrupts : ℕ → Option ℕ → ℕ
new_interrupts periph none = periph + 0x0000B200
new_interrupts periph (some region) = region

abbrev pub new_arm_local : Option ℕ → ℕ
new_arm_local none = bcm_local_base
new_arm_local (some region) = region

-- `kBase`
abbrev pub uart_base : ℕ → ℕ
uart_base periph = periph + 0x201000

-- Where a device's registers are with no region, for a base.
unfoldable pub device_base : ℕ → Device → ℕ
unfolding operator_new
device_base periph gpio = operator_new periph gpio_block none
device_base periph clock = operator_new periph clock_block none
device_base periph interrupts = new_interrupts periph none
device_base periph arm_local = new_arm_local none
device_base periph bsc = operator_new periph i2c_block none
device_base periph spi = operator_new periph spi_block none
device_base periph uart = uart_base periph

-- `&m_register[i]`
unfoldable pub register_address : ℕ → Device → ℕ → ℕ
unfolding device_base
register_address periph d i = device_base periph d + 4 * i

-- The loop in the constructor of `InterruptRegisterAddress` at an address, from an index on, with so
-- many rounds left: the variadic argument is the address of a register.
unfoldable pub announce_rounds : ℕ → ℕ → ℕ → Option Bytes
announce_rounds at zero idx = some []
announce_rounds at (suc rounds) idx = do
  line ← printf (codes "Interrupt Register is 0x%X\n") (word (at + 4 * idx) ∷ [])
  rest ← announce_rounds at rounds (idx + 1)
  some (line ++ rest)

-- What the constructor prints.
unfoldable pub announce : ℕ → Option Bytes
unfolding announce_rounds
announce at = do
  lines ← announce_rounds at 10 0
  last ← printf (codes "\n") []
  some (lines ++ last)
