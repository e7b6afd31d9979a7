-- ===== src/I2cIrq/Ends.antt =====
-- The two ends of a transfer of src/src/i2c/i2c_irq.cpp, `finalize` and `abort_transfer`, in the
-- control register, and `bus_init`.
use mathlib.Core.Option
use rpi3b.Base.{Bool, ◌||◌, arith, ℕ, ◌≡◌, ◌≢◌, refl, sym, ap, ◌∙◌, false, true, some, Option}
use rpi3b.Mmio.{Mmio, load, store, or_assign, and_assign}
use rpi3b.Mmio.Fields.{get_field, set_field}
use rpi3b.I2c.Registers.{Control, Status, clear, done, err, clkt_to, intd, intt, intr, c_all, i2cen}
use rpi3b.I2c.{
  clear_fifo, set_control, get_control, clr_status, clr_control, enable, clock_divider,
  get_clock_divider,
}
use rpi3b.I2c.Fields.{same, get_control-set_control}
use rpi3b.I2cBus.{I2cResult}
use rpi3b.I2cIrq.{Controller, finalize, abort_transfer, quiet, bsc1_irq, bsc_isr_trampoline}
use rpi3b.I2cIrq.Setup.{bus_init}
use rpi3b.Interrupt
use rpi3b.Interrupt.Lines.{is_enabled-enable}
use rpi3b.Interrupt.{
  Irq, set_line, handler, set_handler, is_enabled, handler_for, install_irq_handler, enter,
}

-- What masking the controller's interrupts makes of each control field.
abbrev pub masked : Control → ℕ → ℕ
masked intd old = 0
masked intt old = 0
masked intr old = 0
masked _ old = old

quiet-masked_lem :
    (m : Mmio) (f : Control)
    → f ≢ c_all
    → get_control (clr_control (clr_control (clr_control m intd) intt) intr) f
      ≡ masked f (get_control m f)
quiet-masked_lem m f h =
    let m₁ = clr_control m intd in
    let m₂ = clr_control m₁ intt in
    ground (
      arith,
      (get_control-set_control m₂ intr f 0 0 (λ e. cc) h).1,
      (get_control-set_control m₁ intt f 0 0 (λ e. cc) h).1,
      (get_control-set_control m intd f 0 0 (λ e. cc) h).1,
    )

get_control-clr_status :
    (m : Mmio) (f : Control) (s : Status) → get_control (clr_status m s) f ≡ get_control m f
unfolding clr_status get_control get_field load
get_control-clr_status m f s = refl

clears-get_control :
    (m : Mmio) (f : Control)
    → get_control (clr_status (clr_status (clr_status m done) err) clkt_to) f ≡ get_control m f
clears-get_control m f =
    let m₁ = clr_status m done in
    get_control-clr_status (clr_status m₁ err) f clkt_to
    ∙ get_control-clr_status m₁ f err
    ∙ get_control-clr_status m f done

same-clear : (f : Control) → f ≢ c_all → f ≢ clear → same clear f ≡ false
same-clear f h k = ground arith

emptied-get_control :
    (m : Mmio) (f : Control)
    → f ≢ c_all
    → f ≢ clear
    → get_control (set_control m clear 0b01) f ≡ get_control m f
emptied-get_control m f h k =
    (get_control-set_control m clear f 0b01 0 (λ e. cc) h).0 ∙ rw (same-clear f h k) refl

-- Both ends of a transfer, `finalize` and `abort_transfer`, mask the controller's three interrupts,
-- and keep the other control fields (`abort_transfer`: but CLEAR, by which it empties the FIFO).
pub ends-masked :
    (c : Controller) (r : I2cResult) (f : Control)
    → f ≢ c_all
    → f ≢ clear
    → (get_control (finalize c r).i2c f ≡ masked f (get_control c.i2c f))
      × (get_control (abort_transfer c).i2c f ≡ masked f (get_control c.i2c f))
unfolding finalize quiet abort_transfer clear_fifo
ends-masked c r f h k =
    let cleared = clr_status (clr_status (clr_status c.i2c done) err) clkt_to in
    let quieted = clr_control (clr_control (clr_control c.i2c intd) intt) intr in
    (
      quiet-masked_lem cleared f h ∙ ap (masked f) (clears-get_control c.i2c f),
      clears-get_control (set_control quieted clear 0b01) f
          ∙ emptied-get_control quieted f h k
          ∙ quiet-masked_lem c.i2c f h,
    )

or_true : (b : Bool) → (b || true) ≡ true
or_true b = ground arith

enabled_after :
    (irq irq' : Irq)
    → Interrupt.enable irq bsc1_irq ≡ some irq'
    → is_enabled irq' bsc1_irq ≡ some true
unfolding Option.bind
enabled_after irq irq' e =
    let t = is_enabled-enable irq bsc1_irq bsc1_irq (omega arith) (omega arith) in
    let same_irq : some t.0 ≡ some irq' = sym t.1 ∙ e in
    let enabled : is_enabled t.0 bsc1_irq ≡ some true = t.2.2 ∙ ap some (or_true t.2.0) in
    ap (λ (o : Option Irq). Option.bind o (λ i. is_enabled i bsc1_irq)) (sym same_irq) ∙ enabled

-- `bus_init` is defined. After it, line 53 is enabled, its handler is the driver's interrupt
-- routine, and the IRQ vector of the current level holds the dispatcher.
pub bus_init-installs :
    (c : Controller)
    → (c' : Controller) × (bus_init c ≡ some c')
      × (handler_for c'.irq bsc1_irq ≡ some bsc_isr_trampoline)
      × (is_enabled c'.irq bsc1_irq ≡ some true)
      × (get_clock_divider c'.i2c ≡ get_clock_divider (clock_divider c.i2c c.divider))
      × (get_control c'.i2c i2cen ≡ 1)
unfolding bus_init Interrupt.enable set_line install_irq_handler handler_for handler set_handler
    clock_divider get_clock_divider enable set_control set_field or_assign and_assign store load
bus_init-installs c =
    let installed = install_irq_handler c.irq bsc1_irq (some bsc_isr_trampoline) in
    let m = clock_divider c.i2c c.divider in
    (
      _,
      refl,
      refl,
      enabled_after installed _ refl,
      refl,
      (get_control-set_control m i2cen i2cen 1 0 (λ e. cc) (λ e. cc)).0,
    )
