-- ===== src/I2cIrq.antt =====
-- The interrupt-driven transport of src/inc/i2c_irq.hpp and src/src/i2c/i2c_irq.cpp.
-- Buffers are modelled as in the polling transport: `tx` is what is left of the caller's bytes, and
-- `rx` holds the filled cells and those that are left. A completion callback is a name; its calls
-- are recorded, and what it does itself comes after the operation, which ends with the call.
pub mod Isr
pub mod Moved
pub mod Notified
pub mod Calls
pub mod Ends
pub mod Received
pub mod Setup
pub mod Async
pub mod Interleaved
pub mod Routed
pub mod Served
pub mod Over
use rpi3b.Base.{
  ℕ, zero, suc, ◌+◌, Bool, true, false, ◌||◌, if◌then◌else◌, bit_and, Option, none, some, List, [],
  ◌∷◌, ◌++◌, length,
}
use rpi3b.Word.Single.{is_set}
use rpi3b.Mmio.{Mmio, load}
use rpi3b.Gpio
use rpi3b.Gpio.Registers.{alternate_function0}
use rpi3b.I2c.Registers.{Register, index, done, err, clkt_to, intd, intt, intr}
use rpi3b.I2c.{
  clear_fifo, clr_status, slave_address, data_length, clock_divider, enable, start_read,
  start_write, write_byte, read_byte, set_control, clr_control,
}
use rpi3b.Interrupt
use rpi3b.Interrupt.{Irq, Code, user, install_irq_handler}
use rpi3b.I2cBus.{
  I2cResult, ok, bad_arg, timeout, nack, clock_timeout, s_done, s_txd, s_rxd, s_err, s_clkt,
  bad_args, Slave, Filling,
}

pub record Xfer : Type 0 where
  pub tx : List ℕ
  pub rx : Filling
  pub reading : Bool
  pub finished : Bool
  pub result : I2cResult
  pub cb : Option ℕ
  pub user_data : ℕ
  pub active : Bool

-- The object, and the calls of completion callbacks so far, as callback, result and user data, the
-- last one first. `installed` says that `s_instance` points at this object.
pub record Controller : Type 0 where
  pub i2c : Mmio
  pub gpio : Mmio
  pub irq : Irq
  pub divider : ℕ
  pub max_waits : ℕ
  pub xfer : Xfer
  pub installed : Bool
  pub calls : List (ℕ × I2cResult × ℕ)

abbrev pub bsc1_irq : ℕ
bsc1_irq = 53

-- The function `bsc_isr_trampoline`.
abbrev pub bsc_isr_trampoline : Code
bsc_isr_trampoline = user 0

-- The registers at the end of `start`.
unfoldable pub launch : Mmio → ℕ → ℕ → Bool → Mmio
launch m addr len reading =
    let m₁ = clr_status (clr_status (clr_status (clear_fifo m) done) err) clkt_to in
    let m₂ = data_length (slave_address m₁ addr) len in
    if reading
    then start_read (set_control (set_control m₂ intr 1) intd 1)
    else start_write (set_control (set_control m₂ intt 1) intd 1)

-- With no interrupt between its statements; Interleaved has them one at a time.
unfoldable pub start : Controller → ℕ → List ℕ → List ℕ → Bool → Option ℕ → ℕ → Controller
start c addr tx cells reading cb user_data = record c {
  xfer = record {
    tx = tx;
    rx = record { filled = []; cells = cells };
    reading = reading;
    finished = false;
    result = timeout;
    cb = cb;
    user_data = user_data;
    active = true;
  };
  i2c = launch c.i2c addr (if reading then length cells else length tx) reading;
}

-- The call of the callback at the end of `finalize`.
abbrev pub notify : Option ℕ → I2cResult → ℕ → List (ℕ × I2cResult × ℕ) → List (ℕ × I2cResult × ℕ)
notify none r user_data calls = calls
notify (some cb) r user_data calls = (cb, r, user_data) ∷ calls

-- The controller's registers after `finalize`, which masks the interrupts.
unfoldable pub quiet : Mmio → Mmio
quiet m =
    let m₁ = clr_status (clr_status (clr_status m done) err) clkt_to in
    clr_control (clr_control (clr_control m₁ intd) intt) intr

unfoldable pub finalize : Controller → I2cResult → Controller
finalize c r = record c {
  i2c = quiet c.i2c;
  xfer = record c.xfer { result = r; finished = true; active = false; cb = none };
  calls = notify c.xfer.cb r c.xfer.user_data c.calls;
}

unfoldable pub abort_transfer : Controller → Controller
abort_transfer c =
    let m₁ = clr_control (clr_control (clr_control c.i2c intd) intt) intr in
    let m₂ = clr_status (clr_status (clr_status (clear_fifo m₁) done) err) clkt_to in
    record c { i2c = m₂; xfer = record c.xfer { active = false } }

-- A pass of the loop of `handle_irq`: `return`, or `continue`.
pub data Turn : Type 0 where
  leave : Controller → Turn
  continue : Controller → Turn

-- `m_xfer.reading ? (m_xfer.ri == m_xfer.rn) : true`, as the result that it selects.
abbrev pub outcome : Bool → List ℕ → I2cResult
outcome false cells = ok
outcome true [] = ok
outcome true (c ∷ cs) = timeout

unfoldable pub settle : ℕ → Controller → Turn
settle s c =
    if is_set s s_done then leave (finalize c (outcome c.xfer.reading c.xfer.rx.cells)) else leave c

unfoldable pub pump_tx : ℕ → Controller → List ℕ → Turn
unfolding settle
pump_tx s c [] = settle s c
pump_tx s c (b ∷ bs) =
    if is_set s s_txd
    then continue (record c { i2c = write_byte c.i2c b; xfer = record c.xfer { tx = bs } })
    else settle s c

unfoldable pub pump_rx : ℕ → Controller → List ℕ → Turn
unfolding settle
pump_rx s c [] = settle s c
pump_rx s c (x ∷ xs) =
    if is_set s s_rxd
    then continue (record c {
      xfer = record c.xfer {
        rx = record {
          filled = c.xfer.rx.filled ++ bit_and (read_byte c.i2c) 0xff ∷ [];
          cells = xs;
        };
      };
    })
    else settle s c

unfoldable pub isr_pass : Controller → Turn
unfolding load pump_tx pump_rx
isr_pass c =
    let s = load c.i2c (index Register.s) in
    if is_set s s_err
    then leave (finalize c nack)
    else if is_set s s_clkt
    then leave (finalize c clock_timeout)
    else if c.xfer.reading
    then pump_rx s c c.xfer.rx.cells
    else pump_tx s c c.xfer.tx

-- The object before a pass, with what the controller's hardware put into the registers.
abbrev pub sampled : Controller → (ℕ → ℕ) → Controller
sampled c v = record c { i2c = record c.i2c { value = v } }

-- `for (;;)`, on fuel.
unfoldable pub isr_loop : {W : Type 0} → Slave W → ℕ → Controller → W → Controller × W
isr_loop hw zero c w = (c, w)
isr_loop hw (suc fuel) c w =
    let (w', v) = hw w c.i2c in
    elim (isr_pass (sampled c v)) [ leave c' ↦ (c', w') | continue c' ↦ isr_loop hw fuel c' w' ]

-- The bytes that are still to be moved.
abbrev pub pending : Controller → ℕ
pending c = if c.xfer.reading then length c.xfer.rx.cells else length c.xfer.tx

unfoldable pub handle_irq : {W : Type 0} → Slave W → Controller → W → Controller × W
handle_irq hw c w = isr_loop hw (suc (pending c)) c w

-- The interrupt arriving a number of times.
unfoldable pub interrupts : {W : Type 0} → Slave W → ℕ → Controller → W → Controller × W
unfolding handle_irq
interrupts hw zero c w = (c, w)
interrupts hw (suc n) c w = let (c', w') = handle_irq hw c w in interrupts hw n c' w'

-- How often the interrupt arrives during one call of `wait_for_irq`.
abbrev pub Line : Type 0 → Type 0
Line W = W → W × ℕ

module _ {W : Type 0} (hw : Slave W) (line : Line W) where
  -- The loop of `wait_complete`, where interrupts arrive in `wait_for_irq`, with the number of waits that are left.
  unfoldable pub wait_loop : ℕ → Controller → W → I2cResult × Controller × W
  unfolding interrupts abort_transfer
  wait_loop zero c w = (timeout, abort_transfer c, w)
  wait_loop (suc waits) c w = elim c.xfer.finished [
    | true ↦ (c.xfer.result, c, w)
    | false ↦ let (w', n) = line w in let (c', w'') = interrupts hw n c w' in wait_loop waits c' w''
  ]

  unfoldable pub wait_complete : Controller → W → I2cResult × Controller × W
  wait_complete c w = wait_loop c.max_waits c w

  unfoldable pub write : Controller → W → ℕ → Option (List ℕ) → I2cResult × Controller × W
  unfolding wait_complete start
  write c w addr none = (bad_arg, c, w)
  write c w addr (some bytes) =
      if bad_args addr (some bytes)
      then (bad_arg, c, w)
      else wait_complete (start c addr bytes [] false none 0) w

  unfoldable pub read : Controller → W → ℕ → Option (List ℕ) → I2cResult × Controller × W
  unfolding wait_complete start
  read c w addr none = (bad_arg, c, w)
  read c w addr (some cells) =
      if bad_args addr (some cells)
      then (bad_arg, c, w)
      else wait_complete (start c addr [] cells true none 0) w

  unfoldable pub then_read :
      I2cResult → Controller → W → ℕ → Option (List ℕ) → I2cResult × Controller × W
  unfolding read
  then_read ok c w addr rbuf = read c w addr rbuf
  then_read failed c w addr rbuf = (failed, c, w)

  unfoldable pub write_read :
      Controller → W → ℕ → Option (List ℕ) → Option (List ℕ) → I2cResult × Controller × W
  unfolding write then_read
  write_read c w addr wbuf rbuf =
      let (r, c', w') = write c w addr wbuf in then_read r c' w' addr rbuf
