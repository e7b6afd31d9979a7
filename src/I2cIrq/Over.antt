-- ===== src/I2cIrq/Over.antt =====
-- A transfer of src/src/i2c/i2c_irq.cpp that has ended well stays so, and the wait for it ends.
use rpi3b.Base.{
  ℕ, zero, suc, ◌≤◌, ◌<◌, ◌≡◌, refl, ◌∙◌, Bool, true, false, arith, List, [], ◌∷◌, if◌then◌else◌,
}
use rpi3b.Word.Single.{is_set}
use rpi3b.I2cBus.{I2cResult, ok, Slave, s_err, s_clkt, s_done}
use rpi3b.I2cBus.Serve.{polled}
use rpi3b.I2cIrq.{
  Controller, Turn, Line, leave, finalize, outcome, settle, pump_tx, pump_rx, isr_pass, sampled,
  handle_irq, interrupts, wait_loop,
}
use rpi3b.I2cIrq.Isr.{after, either, interrupts-keeps}
use rpi3b.I2cIrq.Moved.{fifo_log, fifo_log-quiet}
use rpi3b.Mmio.{Mmio}

-- What is left to move.
abbrev pub left_of : Bool → List ℕ → List ℕ → List ℕ
left_of true tx cells = cells
left_of false tx cells = tx

-- The transfer is finished with `ok` and nothing is left to move; the FIFO was given the bytes of
-- `log`, and the buffer holds those of `out`.
pub record Over (log out : List ℕ) (c : Controller) : Type 0 where
  pub finished : c.xfer.finished ≡ true
  pub result : c.xfer.result ≡ ok
  pub none_left : left_of c.xfer.reading c.xfer.tx c.xfer.rx.cells ≡ []
  pub sent : fifo_log c.i2c.stores ≡ log
  pub filled : c.xfer.rx.filled ≡ out

-- A controller that never reports an error.
pub record IsCalm {W : Type 0} (hw : Slave W) : Type 0 where
  pub no_err : (w : W) (m : Mmio) → is_set (polled hw w m) s_err ≡ false
  pub no_clkt : (w : W) (m : Mmio) → is_set (polled hw w m) s_clkt ≡ false

outcome-none_left :
    (reading : Bool) (tx cells : List ℕ)
    → left_of reading tx cells ≡ []
    → outcome reading cells ≡ ok
outcome-none_left true tx [] e = refl
outcome-none_left true tx (x ∷ xs) e = absurd cc
outcome-none_left false tx cells e = refl

-- `finalize` ends a transfer with nothing left.
pub finalize-Over :
    (c : Controller) (log out : List ℕ)
    → left_of c.xfer.reading c.xfer.tx c.xfer.rx.cells ≡ []
    → fifo_log c.i2c.stores ≡ log
    → c.xfer.rx.filled ≡ out
    → Over log out (finalize c (outcome c.xfer.reading c.xfer.rx.cells))
unfolding finalize
finalize-Over c log out e sent filled = record {
  finished = refl;
  result = outcome-none_left c.xfer.reading c.xfer.tx c.xfer.rx.cells e;
  none_left = e;
  sent = fifo_log-quiet c.i2c ∙ sent;
  filled = filled;
}

settle-Over :
    (log out : List ℕ) (s : ℕ) (c : Controller) → Over log out c → Over log out (after (settle s c))
unfolding settle
settle-Over log out s c h =
    either (λ t. Over log out (after t)) (is_set s s_done)
      (leave (finalize c (outcome c.xfer.reading c.xfer.rx.cells))) (leave c)
      (finalize-Over c log out h.none_left h.sent h.filled) h

pump-settle :
    (T : Turn → Type 0) (s : ℕ) (c : Controller) (reading : Bool) (tx cells : List ℕ)
    → left_of reading tx cells ≡ []
    → T (settle s c)
    → T (if reading then pump_rx s c cells else pump_tx s c tx)
unfolding pump_rx pump_tx
pump-settle T s c true tx [] e h = h
pump-settle T s c true tx (x ∷ xs) e h = absurd cc
pump-settle T s c false [] cells e h = h
pump-settle T s c false (x ∷ xs) cells e h = absurd cc

module _ {W : Type 0} (hw : Slave W) (calm : IsCalm hw) where
  pass-Over :
      (log out : List ℕ) (c : Controller) (w : W)
      → Over log out c
      → Over log out (after (isr_pass (sampled c (hw w c.i2c).1)))
  unfolding isr_pass
  pass-Over log out c w h =
      let c' = sampled c (hw w c.i2c).1 in
      let s = polled hw w c.i2c in
      rw (calm.no_err w c.i2c, calm.no_clkt w c.i2c)
        (pump-settle (λ t. Over log out (after t)) s c' c.xfer.reading c.xfer.tx c.xfer.rx.cells
          h.none_left
          (settle-Over log out s c' (record {
            finished = h.finished;
            result = h.result;
            none_left = h.none_left;
            sent = h.sent;
            filled = h.filled;
          })))

  pub interrupts-Over :
      (log out : List ℕ) (n : ℕ) (c : Controller) (w : W)
      → Over log out c
      → Over log out (interrupts hw n c w).0
  interrupts-Over log out n c w h =
      interrupts-keeps hw (Over log out) (λ c' w' h'. pass-Over log out c' w' h') n c w h

  -- At least one interrupt.
  some-Over :
      (log out : List ℕ) (n : ℕ) (c : Controller) (w : W)
      → 0 < n
      → Over log out (handle_irq hw c w).0
      → Over log out (interrupts hw n c w).0
  unfolding interrupts
  some-Over log out zero c w lt h = absurd (omega arith)
  some-Over log out (suc n) c w lt h =
      let (c', w') = handle_irq hw c w in interrupts-Over log out n c' w' h

  -- The test of `m_xfer.done`.
  turn_true :
      (T : I2cResult × Controller × W → Type 0) (b : Bool) (x y : I2cResult × Controller × W)
      → b ≡ true
      → T x
      → T (elim b [ true ↦ x | false ↦ y ])
  turn_true T true x y e h = h
  turn_true T false x y e h = absurd cc

  turn_false :
      (T : I2cResult × Controller × W → Type 0) (b : Bool) (x y : I2cResult × Controller × W)
      → b ≡ false
      → T y
      → T (elim b [ true ↦ x | false ↦ y ])
  turn_false T true x y e h = absurd cc
  turn_false T false x y e h = h

  module _ (line : Line W) (wakes : (w : W) → 0 < (line w).1) where
    wait_again :
        (log out : List ℕ) (waits : ℕ) (c : Controller) (w : W)
        → Over log out c
        → let e = wait_loop hw line (suc waits) c w in (e.0 ≡ ok) × Over log out e.1
    unfolding wait_loop
    wait_again log out waits c w h =
        turn_true (λ e. (e.0 ≡ ok) × Over log out e.1) c.xfer.finished (c.xfer.result, c, w) _
          h.finished (h.result, h)

    -- A wait for a transfer that the first interrupt ends.
    pub wait-Over :
        (log out : List ℕ) (waits : ℕ) (c : Controller) (w : W)
        → 2 ≤ waits
        → c.xfer.finished ≡ false
        → Over log out (handle_irq hw c (line w).0).0
        → let e = wait_loop hw line waits c w in (e.0 ≡ ok) × Over log out e.1
    unfolding wait_loop
    wait-Over log out zero c w two e h = absurd (omega arith)
    wait-Over log out (suc zero) c w two e h = absurd (omega arith)
    wait-Over log out (suc (suc waits)) c w two e h =
        let (w', n) = line w in
        let (c', w'') = interrupts hw n c w' in
        turn_false (λ e. (e.0 ≡ ok) × Over log out e.1) c.xfer.finished (c.xfer.result, c, w)
          (wait_loop hw line (suc waits) c' w'') e
          (wait_again log out waits c' w'' (some-Over log out n c w' (wakes w) h))
