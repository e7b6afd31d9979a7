-- ===== src/Tests/IrqRuns.antt =====
-- Runs of the interrupt-driven transport.
use rpi3b.Base.{
  ℕ, ◌+◌, ◌≡◌, refl, false, true, some, none, List, [], ◌∷◌, suc, arith, ◌==◌, if◌then◌else◌,
}
use rpi3b.Word.{◌<<◌, ◌>>◌, not32}
use rpi3b.Mmio.{load, store, or_assign, and_assign}
use rpi3b.I2cBus.{I2cResult, ok}
use rpi3b.I2cIrq.{
  Controller, Line, start, isr_loop, isr_pass, pending, handle_irq, interrupts, write, read,
  finalize, quiet, launch, pump_tx, pump_rx, settle,
}
use rpi3b.I2cBus.Serve.{Serves}
use rpi3b.I2cIrq.{bsc1_irq, bsc_isr_trampoline}
use rpi3b.I2cIrq.Setup.{bus_init}
use rpi3b.I2cIrq.Routed.{raised, bus_init-routes}
use rpi3b.Interrupt.{enter}
use rpi3b.Interrupt.Dispatch.{highest}
use rpi3b.Interrupt.Registers.{vector_number, cur_el_spx_irq}
use rpi3b.I2cIrq.Moved.{fifo_log}
use rpi3b.I2cIrq.Served.{blocking-Serves, blocking-Supplies}
use rpi3b.I2cIrq.Isr.{handle_irq-ends}
use rpi3b.I2cIrq.Moved.{IsMoved, interrupts-IsMoved}
use rpi3b.I2cIrq.Notified.{Notified, interrupts-Notified}
use rpi3b.I2cIrq.Received.{IsFilled}
use rpi3b.I2cIrq.Interleaved.{
  is_masked, meanwhile, statements, interleaved_start, interleaved_wait, interleaved_call,
  interleaved_write, interleaved_read,
}
use rpi3b.I2cIrq.Interleaved.Blocking.{IsFreed, blocking-IsFreed, blocking-IsFilled}
use rpi3b.I2c.{
  clear_fifo, clr_status, set_control, clr_control, get_control, slave_address, data_length,
  start_read, start_write, enable, read_byte,
}
use rpi3b.Mmio.Fields.{get_field, set_field, clr_field}
use rpi3b.Word.Field.{mask}
use rpi3b.Tests.Data.{filled_with}
use rpi3b.Tests.BusRuns.{constant, ready, packet, ready-Supplies}
use rpi3b.Tests.InterruptRuns.{board}

abbrev pub idle_controller : Controller
idle_controller = record {
  i2c = filled_with 0;
  gpio = filled_with 0;
  irq = board;
  divider = 2500;
  max_waits = 4;
  xfer = record {
    tx = [];
    rx = record { filled = []; cells = [] };
    reading = false;
    finished = false;
    result = I2cResult.timeout;
    cb = none;
    user_data = 0;
    active = false;
  };
  installed = false;
  calls = [];
}

-- A write in flight, with a callback.
abbrev pub busy_controller : Controller
busy_controller = start idle_controller 0x50 packet [] false (some 7) 99

-- The interrupt arrives once in each wait.
abbrev pub each_wait : Line ℕ
each_wait w = (w + 1, 1)

handle_irq-ends_example :
    isr_loop (constant ready) (suc (pending busy_controller) + 5) busy_controller 0
    ≡ handle_irq (constant ready) busy_controller 0
handle_irq-ends_example = handle_irq-ends (constant ready) busy_controller 0 5

interrupts-IsMoved_example :
    IsMoved busy_controller (interrupts (constant ready) 2 busy_controller 0).0
interrupts-IsMoved_example =
    interrupts-IsMoved (constant ready) 2 busy_controller 0 (unfold start in tt)

interrupts-Notified_example :
    Notified busy_controller (interrupts (constant ready) 2 busy_controller 0).0
interrupts-Notified_example = interrupts-Notified (constant ready) 2 busy_controller 0

idle-masked : is_masked idle_controller.i2c ≡ true
unfolding is_masked get_control get_field load ◌>>◌ mask not32 ◌<<◌
idle-masked = refl

blocking-IsFreed_example :
    IsFreed idle_controller
      (interleaved_write (constant ready) each_wait idle_controller 0 0x50 (some packet)).1
    × IsFreed idle_controller
        (interleaved_read (constant ready) each_wait idle_controller 0 0x50 (some packet)).1
blocking-IsFreed_example =
    blocking-IsFreed (constant ready) each_wait idle_controller 0 0x50 packet refl idle-masked

read-runs :
    (interleaved_read (constant ready) each_wait idle_controller 0 0x50 (some packet)).0 ≡ ok
unfolding interleaved_read interleaved_call interleaved_start interleaved_wait statements meanwhile
    is_masked get_control get_field mask not32 ◌>>◌ interrupts handle_irq isr_loop isr_pass pump_rx
    settle finalize quiet clear_fifo clr_status set_control clr_control set_field clr_field
    slave_address data_length start_read enable read_byte or_assign and_assign store load ◌<<◌
read-runs = refl

blocking-IsFilled_example :
    IsFilled 3 (interleaved_read (constant ready) each_wait idle_controller 0 0x50 (some packet)).1
blocking-IsFilled_example =
    blocking-IsFilled (constant ready) each_wait idle_controller 0 0x50 packet idle-masked read-runs

-- The interrupt arrives once, after the first statement of a call.
abbrev second_statement : Line ℕ
second_statement w = (w + 1, if w == 1 then 1 else 0)

-- The controller reports DONE, and no byte.
abbrev done_only : ℕ
done_only = 2

-- A read that is called with a transfer in flight: the interrupt that reports the end of that
-- transfer finds the cleared object and ends the read with `ok` and no cell filled.
in_flight_test :
    let (r, c', w') =
      interleaved_read (constant done_only) second_statement busy_controller 0 0x50 (some packet) in
    (r ≡ ok) × (c'.xfer.rx.filled ≡ [])
unfolding start launch interleaved_read interleaved_call interleaved_start interleaved_wait
    statements meanwhile is_masked get_control get_field mask not32 ◌>>◌ interrupts handle_irq
    isr_loop isr_pass pump_rx pump_tx settle finalize quiet clear_fifo clr_status set_control
    clr_control set_field clr_field slave_address data_length start_read start_write enable
    read_byte or_assign and_assign store load ◌<<◌
in_flight_test = (refl, refl)

taking-Serves : (complete : List (ℕ × ℕ)) → Serves (constant ready) complete
unfolding ◌<<◌
taking-Serves complete = record {
  no_err = λ w m. refl;
  no_clkt = λ w m. refl;
  has_room = λ w m. refl;
  reports_done = λ w m e. refl;
}

blocking-Serves_example :
    let (r, c', w') = write (constant ready) each_wait idle_controller 0 0x50 (some packet) in
    (r ≡ ok) × (fifo_log c'.i2c.stores ≡ 0x10 ∷ 0x20 ∷ 0xff ∷ [])
blocking-Serves_example =
    blocking-Serves (constant ready) each_wait idle_controller 0 0x50 packet (taking-Serves _)
      (λ w. omega arith) (omega arith) (omega arith) (omega arith)

blocking-Supplies_example :
    let (r, c', w') = read (constant ready) each_wait idle_controller 0 0x50 (some packet) in
    (r ≡ ok) × (c'.xfer.rx.filled ≡ 0x32 ∷ 0x32 ∷ 0x32 ∷ [])
blocking-Supplies_example =
    blocking-Supplies (constant ready) each_wait idle_controller 0 0x50 packet ready-Supplies
      (λ w. omega arith) (omega arith) (omega arith) (omega arith)

bus_init-routes_example :
    (c' : Controller) × (bus_init idle_controller ≡ some c')
    × (c'.installed ≡ true)
    × (let irq = raised (filled_with 0) (filled_with 0) c'.irq in
        let entered = enter irq (irq.ivt.slots (vector_number cur_el_spx_irq)) in
        (highest irq 0 ≡ some bsc1_irq → entered ≡ some bsc_isr_trampoline)
        × (highest irq 0 ≡ none → entered ≡ none))
bus_init-routes_example =
    bus_init-routes idle_controller (filled_with 0) (filled_with 0) (λ i. omega arith)
