-- ===== src/I2cIrq/Routed.antt =====
-- From the interrupt line of the BSC to `handle_irq`: `bus_init` of src/src/i2c/i2c_irq.cpp, with
-- the dispatch of src/src/interrupt/interrupt.cpp.
use mathlib.Core.Option
use rpi3b.Base.{ℕ, ◌≡◌, ◌∙◌, refl, ap, true, some, none}
use rpi3b.Mmio.{Mmio, IsWords}
use rpi3b.Interrupt.{Irq, handler, enter, set_line, set_handler, install_irq_handler}
use rpi3b.Interrupt
use rpi3b.Interrupt.Dispatch.{highest, dispatch-highest}
use rpi3b.Interrupt.Registers.{vector_number, cur_el_spx_irq}
use rpi3b.I2cIrq.{Controller, bsc1_irq, bsc_isr_trampoline}
use rpi3b.I2cIrq.Setup.{bus_init}

-- The registers of the two controllers, as the hardware has set them since.
abbrev pub raised : Mmio → Mmio → Irq → Irq
raised memory local irq = record irq { memory = memory; local = local }

-- `bus_init` is defined, and after it, whatever the registers of the interrupt controllers hold
-- since: where line 53 is the pending source with the highest priority on core 0, entering the IRQ
-- vector of the current level runs the transport's own interrupt routine, which finds the object;
-- and where nothing is pending, it runs nothing.
pub bus_init-routes :
    (c : Controller) (memory local : Mmio)
    → IsWords memory
    → (c' : Controller) × (bus_init c ≡ some c')
      × (c'.installed ≡ true)
      × (let irq = raised memory local c'.irq in
          let entered = enter irq (irq.ivt.slots (vector_number cur_el_spx_irq)) in
          (highest irq 0 ≡ some bsc1_irq → entered ≡ some bsc_isr_trampoline)
          × (highest irq 0 ≡ none → entered ≡ none))
unfolding bus_init Interrupt.enable set_line set_handler install_irq_handler enter handler
    Option.bind
bus_init-routes c memory local words =
    let installed = install_irq_handler c.irq bsc1_irq (some bsc_isr_trampoline) in
    let irq = raised memory local installed in
    let routed = dispatch-highest irq 0 words in
    (
      _,
      refl,
      refl,
      (
        (λ h. routed ∙ ap (λ (o : Option.Option ℕ). Option.bind o (handler irq.ivt)) h),
        (λ h. routed ∙ ap (λ (o : Option.Option ℕ). Option.bind o (handler irq.ivt)) h),
      ),
    )
