-- ===== src/I2cIrq/Served.antt =====
-- The blocking calls of src/src/i2c/i2c_irq.cpp against a slave that takes part: they end with `Ok`
-- within the watchdog's budget.
use mathlib.Core.List.{append-nil, append_assoc}
use rpi3b.Base.{
  ℕ, zero, suc, ◌%◌, ◌≤◌, ◌<◌, ◌≡◌, refl, sym, ap, ◌∙◌, Bool, true, false, arith, none, some, List,
  [], ◌∷◌, ◌++◌, map, length,
}
use rpi3b.Mmio.{Mmio, store, or_assign, and_assign}
use rpi3b.Mmio.Fields.{set_field}
use rpi3b.I2c.Registers.{Register, index}
use rpi3b.I2c.{
  write_byte, read_byte, start_read, start_write, clear_fifo, clr_status, set_control,
  slave_address, data_length,
}
use rpi3b.I2cBus.{ok, Slave, addr_max, bad_args}
use rpi3b.I2cBus.Serve.{Serves, stores-write_byte}
use rpi3b.I2cBus.Supply.{Supplies, offered, byte_twice}
use rpi3b.I2cBus.Write.{pushes}
use rpi3b.I2cIrq.{
  Controller, Line, leave, continue, finalize, launch, start, isr_pass, isr_loop, handle_irq,
  pump_tx, pump_rx, settle, wait_complete, write, read,
}
use rpi3b.I2cIrq.Moved.{fifo_log, byte}
use rpi3b.I2cIrq.Over.{Over, IsCalm, finalize-Over, wait-Over}

-- To launch a transfer puts nothing into the FIFO.
fifo_log-launch :
    (m : Mmio) (addr len : ℕ) (reading : Bool)
    → fifo_log (launch m addr len reading).stores ≡ fifo_log m.stores
unfolding launch start_read start_write clear_fifo clr_status set_control set_field slave_address
    data_length store or_assign and_assign
fifo_log-launch m addr len true = refl
fifo_log-launch m addr len false = refl

-- A write in flight, with the registers and the bytes that are left.
abbrev sending : Controller → Mmio → List ℕ → Controller
sending c m tx = record c { i2c = m; xfer = record c.xfer { tx = tx; reading = false } }

module _ {W : Type 0} (hw : Slave W) (complete : List (ℕ × ℕ)) (serves : Serves hw complete) where
  Serves-IsCalm : IsCalm hw
  Serves-IsCalm = record { no_err = serves.no_err; no_clkt = serves.no_clkt }

  pass_sends :
      (c : Controller) (w : W) (m : Mmio) (b : ℕ) (bs : List ℕ)
      → let m' = record m { value = (hw w m).1 } in
        isr_pass (sending c m' (b ∷ bs)) ≡ continue (sending c (write_byte m' b) bs)
  unfolding isr_pass pump_tx
  pass_sends c w m b bs = rw (serves.no_err w m, serves.no_clkt w m, serves.has_room w m) refl

  pass_ends :
      (c : Controller) (w : W) (m : Mmio)
      → m.stores ≡ complete
      → let m' = record m { value = (hw w m).1 } in
        isr_pass (sending c m' []) ≡ leave (finalize (sending c m' []) ok)
  unfolding isr_pass pump_tx settle
  pass_ends c w m e = rw (serves.no_err w m, serves.no_clkt w m, serves.reports_done w m e) refl

  isr_loop-Over :
      (bs log : List ℕ) (fuel : ℕ) (c : Controller) (m : Mmio) (w : W)
      → length bs < fuel
      → pushes bs m.stores ≡ complete
      → fifo_log m.stores ++ map byte bs ≡ log
      → Over log c.xfer.rx.filled (isr_loop hw fuel (sending c m bs) w).0
  unfolding isr_loop
  isr_loop-Over bs log zero c m w lt e l = absurd (omega arith)
  isr_loop-Over [] log (suc fuel) c m w lt e l =
      let m' = record m { value = (hw w m).1 } in
      rw (pass_ends c w m e, isr_loop)
        (finalize-Over (sending c m' []) log c.xfer.rx.filled refl
          (sym (append-nil (fifo_log m.stores)) ∙ l) refl)
  isr_loop-Over (b ∷ bs) log (suc fuel) c m w lt e l =
      let m' = record m { value = (hw w m).1 } in
      rw (pass_sends c w m b bs, isr_loop)
        (isr_loop-Over bs log fuel c (write_byte m' b) (hw w m).0 (omega arith)
          (ap (pushes bs) (stores-write_byte m' b) ∙ e)
          (ap (λ (l : List (ℕ × ℕ)). fifo_log l ++ map byte bs) (stores-write_byte m' b)
            ∙ append_assoc (fifo_log m.stores) (byte b ∷ []) (map byte bs)
            ∙ l))

-- With a slave that serves the write, at least one interrupt in each wait, and a budget of two waits
-- or more, `write` of a buffer that is not empty to a 7-bit address gives `ok`; behind what the FIFO
-- was given before, it was given exactly the bytes of the buffer, in order.
pub blocking-Serves :
    {W : Type 0} (hw : Slave W) (line : Line W) (c : Controller) (w : W) (addr : ℕ) (bytes : List ℕ)
    → Serves hw (pushes bytes (launch c.i2c addr (length bytes) false).stores)
    → ((w : W) → 0 < (line w).1)
    → 2 ≤ c.max_waits
    → addr ≤ addr_max
    → 0 < length bytes
    → let (r, c', w') = write hw line c w addr (some bytes) in
      (r ≡ ok) × (fifo_log c'.i2c.stores ≡ fifo_log c.i2c.stores ++ map byte bytes)
unfolding write
blocking-Serves hw line c w addr bytes serves wakes two h pos =
    let good : bad_args addr (some bytes) ≡ false = ground arith in
    let c₀ = start c addr bytes [] false none 0 in
    let m = launch c.i2c addr (length bytes) false in
    let log = fifo_log c.i2c.stores ++ map byte bytes in
    let served =
      isr_loop-Over hw (pushes bytes m.stores) serves bytes log (suc (length bytes)) c₀ m (line w).0
        (omega arith) refl (ap (λ l. l ++ map byte bytes) (fifo_log-launch c.i2c addr _ false)) in
    let waited =
      wait-Over hw (Serves-IsCalm hw _ serves) line wakes log [] c.max_waits c₀ w two
        (unfold start in refl) (unfold start handle_irq in served) in
    rw good (unfold wait_complete start in (waited.0, waited.1.sent))

-- A read in flight.
abbrev receiving : Controller → Mmio → List ℕ → List ℕ → Controller
receiving c m got cells = record c {
  i2c = m;
  xfer = record c.xfer { rx = record { filled = got; cells = cells }; reading = true };
}

module _ {W : Type 0} (hw : Slave W) (supplies : Supplies hw) where
  Supplies-IsCalm : IsCalm hw
  Supplies-IsCalm = record { no_err = supplies.no_err; no_clkt = supplies.no_clkt }

  pass_receives :
      (c : Controller) (w : W) (m : Mmio) (got : List ℕ) (x : ℕ) (xs : List ℕ)
      → let v = (hw w m).1 in
        let m' = record m { value = v } in
        isr_pass (receiving c m' got (x ∷ xs))
        ≡ continue (receiving c m' (got ++ v (index Register.fifo) % 256 ∷ []) xs)
  unfolding isr_pass pump_rx read_byte
  pass_receives c w m got x xs =
      rw
        (
          supplies.no_err w m,
          supplies.no_clkt w m,
          supplies.has_byte w m,
          byte_twice ((hw w m).1 4),
        )
        refl

  pass_full :
      (c : Controller) (w : W) (m : Mmio) (got : List ℕ)
      → let m' = record m { value = (hw w m).1 } in
        isr_pass (receiving c m' got []) ≡ leave (finalize (receiving c m' got []) ok)
  unfolding isr_pass pump_rx settle
  pass_full c w m got =
      rw (supplies.no_err w m, supplies.no_clkt w m, supplies.reports_done w m) refl

  isr_loop-Received :
      (cells got out : List ℕ) (fuel : ℕ) (c : Controller) (m : Mmio) (w : W)
      → length cells < fuel
      → got ++ offered hw (length cells) w m ≡ out
      → Over (fifo_log m.stores) out (isr_loop hw fuel (receiving c m got cells) w).0
  unfolding isr_loop
  isr_loop-Received cells got out zero c m w lt e = absurd (omega arith)
  isr_loop-Received [] got out (suc fuel) c m w lt e =
      let m' = record m { value = (hw w m).1 } in
      rw (pass_full c w m got, isr_loop)
        (finalize-Over (receiving c m' got []) (fifo_log m.stores) out refl refl
          (sym (append-nil got) ∙ e))
  isr_loop-Received (x ∷ xs) got out (suc fuel) c m w lt e =
      let (w', v) = hw w m in
      let b = v (index Register.fifo) % 256 in
      let m' = record m { value = v } in
      rw (pass_receives c w m got x xs, isr_loop)
        (isr_loop-Received xs (got ++ b ∷ []) out fuel c m' w' (omega arith)
          (append_assoc got (b ∷ []) (offered hw (length xs) w' m') ∙ e))

-- With a slave that supplies a byte at each poll, at least one interrupt in each wait, and a budget
-- of two waits or more, `read` of a buffer that is not empty from a 7-bit address gives `ok`, and
-- the buffer holds, in order, the bytes that the polls found in the FIFO during the first interrupt.
pub blocking-Supplies :
    {W : Type 0} (hw : Slave W) (line : Line W) (c : Controller) (w : W) (addr : ℕ) (cells : List ℕ)
    → Supplies hw
    → ((w : W) → 0 < (line w).1)
    → 2 ≤ c.max_waits
    → addr ≤ addr_max
    → 0 < length cells
    → let (r, c', w') = read hw line c w addr (some cells) in
      (r ≡ ok)
      × (c'.xfer.rx.filled
          ≡ offered hw (length cells) (line w).0 (launch c.i2c addr (length cells) true))
unfolding read
blocking-Supplies hw line c w addr cells supplies wakes two h pos =
    let good : bad_args addr (some cells) ≡ false = ground arith in
    let c₀ = start c addr [] cells true none 0 in
    let m = launch c.i2c addr (length cells) true in
    let out = offered hw (length cells) (line w).0 m in
    let got =
      isr_loop-Received hw supplies cells [] out (suc (length cells)) c₀ m (line w).0 (omega arith)
        refl in
    let waited =
      wait-Over hw (Supplies-IsCalm hw supplies) line wakes (fifo_log m.stores) out c.max_waits c₀ w
        two (unfold start in refl) (unfold start handle_irq in got) in
    rw good (unfold wait_complete start in (waited.0, waited.1.filled))
