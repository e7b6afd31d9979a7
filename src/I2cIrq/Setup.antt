-- ===== src/I2cIrq/Setup.antt =====
-- `bus_init` of src/src/i2c/i2c_irq.cpp.
use rpi3b.Base.{true, Option, none, some}
use rpi3b.Gpio
use rpi3b.Gpio.Registers.{alternate_function0}
use rpi3b.I2c.{clock_divider, enable}
use rpi3b.Interrupt
use rpi3b.Interrupt.{Irq, Code, user, install_irq_handler}
use rpi3b.I2cIrq.{Controller, bsc1_irq, bsc_isr_trampoline}

-- `none`: `IRQ::enable` has no defined result.
unfoldable pub bus_init : Controller → Option Controller
bus_init c =
    let g = Gpio.write c.gpio 2 alternate_function0 in
    let g' = Gpio.write g 3 alternate_function0 in
    let installed = install_irq_handler c.irq bsc1_irq (some bsc_isr_trampoline) in
    elim (Interrupt.enable installed bsc1_irq) [
      | none ↦ none
      | some irq' ↦ some (record c {
        gpio = g';
        i2c = enable (clock_divider c.i2c c.divider);
        irq = irq';
        installed = true;
      })
    ]
