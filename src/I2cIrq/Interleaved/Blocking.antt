-- ===== src/I2cIrq/Interleaved/Blocking.antt =====
-- The blocking calls of src/src/i2c/i2c_irq.cpp with interrupts between their statements.
use rpi3b.Base.{
  arith, ℕ, ◌≡◌, ◌≢◌, refl, sym, ap, ◌∙◌, Bool, true, false, Option, none, some, List, [], length,
  if◌then◌else◌,
}
use rpi3b.I2cBus.{I2cResult, ok, bad_arg, Slave, bad_args}
use rpi3b.I2cIrq.{Controller, Line, notify}
use rpi3b.I2cIrq.Notified.{Notified, waiting, notified, interrupts-Notified_from}
use rpi3b.I2cIrq.Received.{IsReading, IsFilled, Complete-nil, interrupts-IsReading}
use rpi3b.I2cIrq.Interleaved.{
  is_masked, setup_statements, interleaved_call, interleaved_write, interleaved_read,
}
use rpi3b.I2cIrq.Interleaved.Ends.{
  run_all, Ended, in_time, given_up, IsStable, interleaved_call-Ended,
}

-- The transfer is over, and no callback was called.
abbrev pub IsFreed : Controller → Controller → Type 0
IsFreed c c' = (c'.xfer.active ≡ false) × (c'.calls ≡ c.calls)

true≢false : true ≢ false
true≢false e = cc

silent :
    (c₀ : Controller) (r : I2cResult)
    → c₀.xfer.cb ≡ none
    → notify c₀.xfer.cb r c₀.xfer.user_data c₀.calls ≡ c₀.calls
silent c₀ r e = ap (λ (cb : Option ℕ). notify cb r c₀.xfer.user_data c₀.calls) e

Ended-IsFreed :
    (c₀ c : Controller) (r : I2cResult)
    → c₀.xfer.cb ≡ none
    → c₀.xfer.finished ≡ false
    → Ended (Notified c₀) r c
    → IsFreed c₀ c
Ended-IsFreed c₀ c r e d (in_time (waiting cb u k d') f x) = absurd (true≢false (sym f ∙ d' ∙ d))
Ended-IsFreed c₀ c r e d (in_time (notified r' cb f' a k) f x) = (a, k ∙ silent c₀ r' e)
Ended-IsFreed c₀ c r e d (given_up (waiting cb u k d') f x) = (f, k)
Ended-IsFreed c₀ c r e d (given_up (notified r' cb f' a k) f x) = (f, k ∙ silent c₀ r' e)

Notified-stopped :
    (c₀ c : Controller)
    → Notified c₀ c
    → Notified c₀ (record c { xfer = record c.xfer { active = false } })
Notified-stopped c₀ c (waiting cb u k d) = waiting cb u k d
Notified-stopped c₀ c (notified r cb f a k) = notified r cb f refl k

Notified-stored : (c₀ c : Controller) (m : _) → Notified c₀ c → Notified c₀ (record c { i2c = m })
Notified-stored c₀ c m (waiting cb u k d) = waiting cb u k d
Notified-stored c₀ c m (notified r cb f a k) = notified r cb f a k

complete-IsFilled :
    (n : ℕ) (c : Controller) (r : I2cResult) → Ended (IsReading n) r c → r ≡ ok → IsFilled n c
complete-IsFilled n c r (in_time h f x) e =
    let none_left =
      Complete-nil c.xfer.finished c.xfer.result c.xfer.rx.cells f (sym x ∙ e) h.complete in
    record {
      size = omega (arith, h.counted, ap length none_left);
      no_cells = none_left;
      bytes = h.bytes;
    }
complete-IsFilled n c r (given_up h f x) e = absurd cc

module _ {W : Type 0} (hw : Slave W) (line : Line W) (c : Controller) (w : W) (addr : ℕ) where
  called-IsFreed :
      (count : ℕ) (tx cells : List ℕ) (reading : Bool)
      → is_masked c.i2c ≡ true
      → IsFreed c (interleaved_call hw line c w addr count tx cells reading).1
  called-IsFreed count tx cells reading masked =
      let c₀ = run_all (setup_statements addr count tx cells reading none 0) c in
      let stable : IsStable hw (Notified c₀) = record {
        interrupted = λ n c' w' h. interrupts-Notified_from hw n c₀ c' w' h;
        stored = λ c' m h. Notified-stored c₀ c' m h;
        stopped = λ c' h. Notified-stopped c₀ c' h;
      } in
      let e = interleaved_call hw line c w addr count tx cells reading in
      Ended-IsFreed c₀ e.1 e.0 refl refl (
        interleaved_call-Ended hw line (Notified c₀) stable c w addr count tx cells reading masked
          (waiting refl refl refl refl))

  -- When the controller's interrupts are masked at the call, then, whatever the hardware does and
  -- between whichever statements of the call its interrupts arrive once they can: `write` and `read`
  -- of valid arguments come back with no transfer active, whether it ended or was aborted, and
  -- call no callback.
  pub blocking-IsFreed :
      (bytes : List ℕ)
      → bad_args addr (some bytes) ≡ false
      → is_masked c.i2c ≡ true
      → IsFreed c (interleaved_write hw line c w addr (some bytes)).1
        × IsFreed c (interleaved_read hw line c w addr (some bytes)).1
  unfolding interleaved_write interleaved_read
  blocking-IsFreed bytes e masked = rw e (
    called-IsFreed (length bytes) bytes [] false masked,
    called-IsFreed (length bytes) [] bytes true masked,
  )

  called-IsFilled :
      (cells : List ℕ)
      → is_masked c.i2c ≡ true
      → let e = interleaved_call hw line c w addr (length cells) [] cells true in
        e.0 ≡ ok → IsFilled (length cells) e.1
  called-IsFilled cells masked said =
      let n = length cells in
      let stable : IsStable hw (IsReading n) = record {
        interrupted = λ k c' w' h. interrupts-IsReading hw n k c' w' h;
        stored = λ c' m h. record {
          reading = h.reading;
          counted = h.counted;
          bytes = h.bytes;
          complete = h.complete;
        };
        stopped = λ c' h. record {
          reading = h.reading;
          counted = h.counted;
          bytes = h.bytes;
          complete = h.complete;
        };
      } in
      let e = interleaved_call hw line c w addr n [] cells true in
      complete-IsFilled n e.1 e.0
        (interleaved_call-Ended hw line (IsReading n) stable c w addr n [] cells true masked
          (record { reading = refl; counted = omega arith; bytes = tt; complete = tt }))
        said

  checked-IsFilled :
      (b : Bool) (cells : List ℕ)
      → is_masked c.i2c ≡ true
      → let e : I2cResult × Controller × W =
          if b
          then (bad_arg, c, w)
          else interleaved_call hw line c w addr (length cells) [] cells true in
        e.0 ≡ ok → IsFilled (length cells) e.1
  checked-IsFilled true cells masked e = absurd cc
  checked-IsFilled false cells masked e = called-IsFilled cells masked e

  -- When the controller's interrupts are masked at the call, then, whatever the hardware does and
  -- between whichever statements of the call its interrupts arrive once they can: where `read` gives
  -- `ok`, every cell of the buffer was filled, each with a byte.
  pub blocking-IsFilled :
      (cells : List ℕ)
      → is_masked c.i2c ≡ true
      → (interleaved_read hw line c w addr (some cells)).0 ≡ ok
      → IsFilled (length cells) (interleaved_read hw line c w addr (some cells)).1
  unfolding interleaved_read
  blocking-IsFilled cells masked e = checked-IsFilled (bad_args addr (some cells)) cells masked e
