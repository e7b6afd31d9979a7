-- ===== src/Program.antt =====
-- `main` of src/main.cpp: the demonstration on a running Linux board.
pub mod Blink
use rpi3b.Base.{ℕ, ◌+◌, ◌*◌, Bool, true, false, Option, none, some, ◌==◌, if◌then◌else◌}
use rpi3b.Gpio.{output, gpsetn}
use rpi3b.Gpio.Registers.{register_max}
use rpi3b.Mapping.{
  Made, made, open_failed, mmap_failed, Calls, construct, destroy, map_address, gpio_block,
}
use rpi3b.Mmio.{Mmio}

abbrev pub led : ℕ
led = 17

-- What `main` leaves: the value returned, the calls of the operating system, and the registers.
pub record Outcome : Type 0 where
  pub returned : ℕ
  pub calls : Calls
  pub gpio : Mmio

-- The `try` block and its handler, on what the factory gave.
unfoldable pub blink : Made × Calls → Mmio → Outcome
blink (made region, calls) gpio =
    let muxed = output gpio led in
    let high = gpsetn muxed led in
    record { returned = 0; calls = destroy region calls; gpio = high }
blink (open_failed, calls) gpio = record { returned = 1; calls = calls; gpio = gpio }
blink (mmap_failed, calls) gpio = record { returned = 1; calls = calls; gpio = gpio }

-- With whether the first argument is `--blink`, the base that `periph_base` gives, the page size, and
-- the answers of `open` and `mmap`. What is printed is left out.
unfoldable pub main : Bool → ℕ → ℕ → Option ℕ → Option ℕ → Calls → Mmio → Outcome
main false base pg opened mapping calls gpio = record { returned = 0; calls = calls; gpio = gpio }
main true base pg opened mapping calls gpio =
    blink (construct pg opened mapping (map_address base gpio_block) (4 * register_max) calls) gpio
