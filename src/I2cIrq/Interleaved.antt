-- ===== src/I2cIrq/Interleaved.antt =====
-- The blocking calls of src/src/i2c/i2c_irq.cpp, one statement at a time, with interrupts between the
-- statements. The controller raises its interrupt only while one of INTD, INTT and INTR is set in its
-- control register; `line` says how often it arrives before the next statement, if it can.
pub mod Ends
pub mod Blocking
use rpi3b.Base.{
  ℕ, zero, suc, Bool, true, false, ◌&&◌, ◌==◌, if◌then◌else◌, Option, none, some, List, [], ◌∷◌,
  length,
}
use rpi3b.Mmio.{Mmio}
use rpi3b.I2c.Registers.{done, err, clkt_to, intd, intt, intr}
use rpi3b.I2c.{
  clear_fifo, clr_status, slave_address, data_length, start_read, start_write, set_control,
  clr_control, get_control,
}
use rpi3b.I2cBus.{I2cResult, bad_arg, timeout, bad_args, Slave}
use rpi3b.I2cIrq.{Controller, Xfer, Line, interrupts}

unfoldable pub is_masked : Mmio → Bool
is_masked m = get_control m intd == 0 && get_control m intt == 0 && get_control m intr == 0

abbrev pub Statement : Type 0
Statement = Controller → Controller

abbrev pub on_xfer : (Xfer → Xfer) → Statement
on_xfer f c = record c { xfer = f c.xfer }

abbrev pub on_i2c : (Mmio → Mmio) → Statement
on_i2c f c = record c { i2c = f c.i2c }

-- `Xfer{}`
abbrev pub blank_xfer : Xfer
blank_xfer = record {
  tx = [];
  rx = record { filled = []; cells = [] };
  reading = false;
  finished = false;
  result = timeout;
  cb = none;
  user_data = 0;
  active = false;
}

-- The statements of `start` before those that let the controller interrupt.
abbrev pub setup_statements : ℕ → ℕ → List ℕ → List ℕ → Bool → Option ℕ → ℕ → List Statement
setup_statements addr count tx cells reading cb user_data =
    on_xfer (λ x. blank_xfer)
    ∷ on_xfer (λ x. record x { tx = tx })
    ∷ on_xfer (λ x. record x { rx = record { filled = []; cells = cells } })
    ∷ on_xfer (λ x. record x { reading = reading })
    ∷ on_xfer (λ x. record x { cb = cb; user_data = user_data })
    ∷ on_xfer (λ x. record x { active = true })
    ∷ on_i2c clear_fifo
    ∷ on_i2c (λ m. clr_status m done)
    ∷ on_i2c (λ m. clr_status m err)
    ∷ on_i2c (λ m. clr_status m clkt_to)
    ∷ on_i2c (λ m. slave_address m addr)
    ∷ on_i2c (λ m. data_length m count)
    ∷ []

-- The statements of `start` that let the controller interrupt and start the transfer.
abbrev pub kick_statements : Bool → List Statement
kick_statements true =
    on_i2c (λ m. set_control m intr 1) ∷ on_i2c (λ m. set_control m intd 1) ∷ on_i2c start_read ∷ []
kick_statements false =
    on_i2c (λ m. set_control m intt 1)
    ∷ on_i2c (λ m. set_control m intd 1)
    ∷ on_i2c start_write
    ∷ []

abbrev pub abort_statements : List Statement
abort_statements =
    on_i2c (λ m. clr_control m intd)
    ∷ on_i2c (λ m. clr_control m intt)
    ∷ on_i2c (λ m. clr_control m intr)
    ∷ on_i2c clear_fifo
    ∷ on_i2c (λ m. clr_status m done)
    ∷ on_i2c (λ m. clr_status m err)
    ∷ on_i2c (λ m. clr_status m clkt_to)
    ∷ on_xfer (λ x. record x { active = false })
    ∷ []

module _ {W : Type 0} (hw : Slave W) (line : Line W) where
  -- The interrupts that arrive between two statements.
  unfoldable pub meanwhile : Controller → W → Controller × W
  unfolding is_masked interrupts
  meanwhile c w = let (w', n) = line w in if is_masked c.i2c then (c, w') else interrupts hw n c w'

  unfoldable pub statements : List Statement → Controller → W → Controller × W
  unfolding meanwhile
  statements [] c w = (c, w)
  statements (f ∷ fs) c w = let (c', w') = meanwhile c w in statements fs (f c') w'

  unfoldable pub interleaved_start :
      Controller → W → ℕ → ℕ → List ℕ → List ℕ → Bool → Controller × W
  unfolding statements
  interleaved_start c w addr count tx cells reading =
      let (c', w') = statements (setup_statements addr count tx cells reading none 0) c w in
      statements (kick_statements reading) c' w'

  -- `wait_complete`, with the number of waits that are left. An interrupt that ends a call of
  -- `wait_for_irq` is one that arrives before the next test; `done` and `result` are read apart.
  unfoldable pub interleaved_wait : ℕ → Controller → W → I2cResult × Controller × W
  unfolding statements meanwhile
  interleaved_wait zero c w = let (c', w') = statements abort_statements c w in (timeout, c', w')
  interleaved_wait (suc waits) c w =
      let (c₁, w₁) = meanwhile c w in
      let rest = interleaved_wait waits c₁ w₁ in
      let (c₂, w₂) = meanwhile c₁ w₁ in if c₁.xfer.finished then (c₂.xfer.result, c₂, w₂) else rest

  unfoldable pub interleaved_call :
      Controller → W → ℕ → ℕ → List ℕ → List ℕ → Bool → I2cResult × Controller × W
  unfolding interleaved_start interleaved_wait
  interleaved_call c w addr count tx cells reading =
      let (c', w') = interleaved_start c w addr count tx cells reading in
      interleaved_wait c.max_waits c' w'

  unfoldable pub interleaved_write :
      Controller → W → ℕ → Option (List ℕ) → I2cResult × Controller × W
  unfolding interleaved_call
  interleaved_write c w addr none = (bad_arg, c, w)
  interleaved_write c w addr (some bytes) =
      if bad_args addr (some bytes)
      then (bad_arg, c, w)
      else interleaved_call c w addr (length bytes) bytes [] false

  unfoldable pub interleaved_read :
      Controller → W → ℕ → Option (List ℕ) → I2cResult × Controller × W
  unfolding interleaved_call
  interleaved_read c w addr none = (bad_arg, c, w)
  interleaved_read c w addr (some cells) =
      if bad_args addr (some cells)
      then (bad_arg, c, w)
      else interleaved_call c w addr (length cells) [] cells true
