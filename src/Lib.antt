-- ===== src/Lib.antt =====
-- The drivers of the BCM2837 peripherals of the Raspberry Pi 3B: GPIO, the BSC (I2C) controller
-- with its polling and its interrupt-driven transport, the SPI controller, the interrupt controller
-- and the clock manager; the mapping of their registers on Linux and the transport over /dev/i2c;
-- and the freestanding program that boots four cores with them.
--
-- Every driver is a class over a block of memory-mapped registers. `Mmio` models a block: the word
-- that each register holds, and the stores made so far, since a store to a register that clears
-- what is written to it, or to a FIFO, acts by being made. The word that a load gives is the one
-- stored last, unless a model says that the hardware changed it in between.
--
-- Files and code (paths from the repository's root):
--   Word, Word/*      the operations `~`, `<<`, `>>`, `&`, `|` of unsigned words, by bits
--   Mmio, Mmio/*      `mmio_reg` (inc/memory_map.hpp), and fields of registers
--   Gpio, Gpio/*      `GPIO` (src/gpio/gpio.cpp, inc/gpio.hpp)
--   I2c, I2c/*        `I2C` (src/i2c/i2c.cpp, inc/i2c.hpp)
--   I2cTransport, ... `I2cTransport`, the interface of the transports (inc/i2c_bus.hpp): a record of
--                     operations with its laws, its client, and the polling and the
--                     interrupt-driven transport as two of its implementations
--   I2cBus, I2cBus/*  `Bcm2837I2cTransport` (src/i2c/i2c_bus.cpp, inc/i2c_bus.hpp)
--   I2cDev, I2cDev/*  `I2cDevTransport` (inc/i2c_dev.hpp), another implementation
--   Interrupt, ...    `IRQ` and `IVT` (src/interrupt/interrupt.cpp, inc/interrupt.hpp)
--   Interrupt/Overlay `IRQ` on a region of words, as its constructor places it
--   I2cIrq, I2cIrq/*  `Bcm2837I2cIrqTransport` (src/i2c/i2c_irq.cpp, inc/i2c_irq.hpp)
--   Spi, Spi/*        `SPI` (src/spi/spi.cpp, inc/spi.hpp)
--   Clock, Clock/*    `CLOCK` (src/clock/clock.cpp, inc/clock.hpp)
--   Mapping, ...      the base address, `MMIO`, `Mapped` and the factories (inc/mmio.hpp), and the
--                     addresses of bare-metal overlays (`operator new` in inc/memory_map.hpp)
--   Libc, Libc/*      memset, memcpy, memmove and memcmp (freestanding/libc_min.cpp)
--   Console, ...      the PL011 console (freestanding/uart.cpp) and `print_uint`
--   Printf, Printf/*  `printf` (freestanding/libc_min.cpp)
--   Mmu, Mmu/*        the translation tables (freestanding/mmu.cpp) and the walk of the hardware
--   Smp, Smp/*        the four cores under the console lock (freestanding/smp.cpp and uart.cpp)
--   Devices, ...      where the blocks are with no region (inc/memory_map.hpp, freestanding/uart.cpp),
--                     and what the interrupt registers' constructor prints
--   Boot, Boot/*      start-up and interrupts (freestanding/kmain.cpp, smp.cpp, exceptions.cpp)
--   Program, ...      the demonstration program (src/main.cpp)
--   Base, Base/*      names and lemmas that all parts share
--   Tests, Tests/*    runs at concrete inputs
-- The enumerations of inc/memory_map.hpp stand in the `Registers` modules.
--
-- A method has the name of the source in lower case, with `get_` or `set_` where the source
-- overloads one name for reading and storing. It takes the block and gives the block afterwards, or
-- the value read. Where C++ leaves a shift undefined, or the source returns a variable that it has
-- not set, the result is `none`; so it is where a call of `printf` has no defined behaviour.
--
-- The polling transport runs against a `Slave`, which stands for the controller's hardware and the
-- device: a function that, before each poll, gives the registers' contents from its own state and
-- from the stores made so far. The loops of `write` and `read` recurse on the spins that are left,
-- which is the bound that the source has. The loop of `lowest_set_bit` has fuel for the 32 bits of
-- a word. A handler is a name, `Code`, and `dispatch` gives the one that it calls.
--
-- The interrupt-driven transport runs against the same `Slave`. `handle_irq` has as fuel one pass
-- for each byte that is still to be moved, and one more: a pass that goes on has moved a byte. A
-- `Line` says how often the interrupt arrives during each call of `wait_for_irq`; `wait_complete`
-- recurses on the waits that are left, the bound of the source. In I2cIrq itself interrupts arrive
-- only there, as on the host, where tests drive `handle_irq` from `wait_for_irq`; I2cIrq/Interleaved
-- has the blocking calls statement by statement, with interrupts between the statements as soon as
-- the control register lets the controller raise them.
--
-- The kernel's part in the transport over /dev/i2c is a function from the messages to an answer. The
-- mapping records the descriptors and mappings that the operating system gave and got back, and its
-- life is a step relation over any number of objects.
--
-- `uart_putc` has fuel for the loads of the flag register, which the hardware supplies; the printers
-- above it give the bytes that they send, and their loops recur on the room of the source's buffers.
-- The cores under the console lock are a step relation in which every context that runs may go on;
-- what a context prints between taking the lock and giving it back is with the start-up, where the
-- rest of `kmain`, `ksecondary` and `timer_isr` is sequential.
--
-- A block is memory: a field that is read back is the one that was stored. Where the hardware does
-- something else with a store, a theorem says so: GPEDSn, whose bits are cleared by writing 1, in
-- Gpio/Pins, and the clock registers, which ignore a store without a password, in Clock/Password.
--
-- An `IRQ` object is modelled twice: with separate blocks, which is what the other parts use, and on
-- a region of 32-bit words, where registers and 64-bit pointers stand one after another. How the
-- address of a function is encoded is a parameter there.
--
-- Not modelled: the assembly files and the linker script, memory and
-- instruction barriers, cache and TLB maintenance and the order of accesses that they enforce, what
-- src/main.cpp prints, and the unit tests.
mod Base
pub mod Word
pub mod Mmio
pub mod Gpio
pub mod I2c
pub mod I2cTransport
pub mod I2cBus
pub mod I2cDev
pub mod Interrupt
pub mod Clock
pub mod Spi
pub mod I2cIrq
pub mod Mapping
pub mod Libc
pub mod Console
pub mod Printf
pub mod Mmu
pub mod Smp
pub mod Devices
pub mod Boot
pub mod Program
pub mod Tests
