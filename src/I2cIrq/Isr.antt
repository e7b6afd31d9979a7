-- ===== src/I2cIrq/Isr.antt =====
-- The loop of `handle_irq`: what a pass can do, and that the loop ends.
use rpi3b.Base.{
  ℕ, zero, suc, ◌+◌, ◌≤◌, ◌<◌, ◌≡◌, refl, ap, arith, Bool, true, false, if◌then◌else◌, List, [],
  ◌∷◌, ◌++◌, length, bit_and,
}
use rpi3b.Word.Single.{is_set}
use rpi3b.I2c.Registers.{Register, index}
use rpi3b.I2c.{read_byte, write_byte}
use rpi3b.I2cBus.{nack, clock_timeout, Slave, s_err, s_clkt, s_done, s_rxd, s_txd}
use rpi3b.I2cIrq.{
  Controller, Turn, leave, continue, finalize, outcome, settle, pump_tx, pump_rx, isr_pass, sampled,
  isr_loop, pending, handle_irq, interrupts,
}

-- The object after a pass.
abbrev pub after : Turn → Controller
after (leave c) = c
after (continue c) = c

pub either : (T : Turn → Type 0) (b : Bool) (p q : Turn) → T p → T q → T (if b then p else q)
either T true p q h k = h
either T false p q h k = k

either_if :
    (T : Turn → Type 0) (b : Bool) (p q : Turn)
    → (b ≡ true → T p)
    → (b ≡ false → T q)
    → T (if b then p else q)
either_if T true p q h k = h refl
either_if T false p q h k = k refl

-- The object after a byte went into the FIFO, and after one came out of it.
abbrev pub pushed : Controller → ℕ → List ℕ → Controller
pushed c b bs = record c { i2c = write_byte c.i2c b; xfer = record c.xfer { tx = bs } }

abbrev pub popped : Controller → List ℕ → Controller
popped c xs = record c {
  xfer = record c.xfer {
    rx = record { filled = c.xfer.rx.filled ++ bit_and (read_byte c.i2c) 0xff ∷ []; cells = xs };
  };
}

-- A property of the outcomes of passes holds if it holds of those that a pass can have.
module _ (T : Turn → Type 0) (c : Controller) (refused : T (leave (finalize c nack)))
    (stretched : T (leave (finalize c clock_timeout)))
    (ended : T (leave (finalize c (outcome c.xfer.reading c.xfer.rx.cells)))) (stays : T (leave c))
    (push : (b : ℕ) (bs : List ℕ)
      → c.xfer.reading ≡ false
      → c.xfer.tx ≡ b ∷ bs
      → T (continue (pushed c b bs)))
    (pop : (x : ℕ) (xs : List ℕ)
      → c.xfer.reading ≡ true
      → c.xfer.rx.cells ≡ x ∷ xs
      → T (continue (popped c xs))) where
  settle-either : (s : ℕ) → T (settle s c)
  unfolding settle
  settle-either s =
      either T (is_set s s_done) (leave (finalize c (outcome c.xfer.reading c.xfer.rx.cells)))
        (leave c) ended stays

  pump_tx-either :
      (s : ℕ) (rest : List ℕ) → c.xfer.reading ≡ false → c.xfer.tx ≡ rest → T (pump_tx s c rest)
  unfolding pump_tx
  pump_tx-either s [] r e = settle-either s
  pump_tx-either s (b ∷ bs) r e =
      either T (is_set s s_txd) (continue (pushed c b bs)) (settle s c) (push b bs r e)
        (settle-either s)

  pump_rx-either :
      (s : ℕ) (rest : List ℕ)
      → c.xfer.reading ≡ true
      → c.xfer.rx.cells ≡ rest
      → T (pump_rx s c rest)
  unfolding pump_rx
  pump_rx-either s [] r e = settle-either s
  pump_rx-either s (x ∷ xs) r e =
      either T (is_set s s_rxd) (continue (popped c xs)) (settle s c) (pop x xs r e)
        (settle-either s)

  pump-either :
      (s : ℕ) → T (if c.xfer.reading then pump_rx s c c.xfer.rx.cells else pump_tx s c c.xfer.tx)
  pump-either s =
      either_if T c.xfer.reading (pump_rx s c c.xfer.rx.cells) (pump_tx s c c.xfer.tx)
        (λ r. pump_rx-either s c.xfer.rx.cells r refl) (λ r. pump_tx-either s c.xfer.tx r refl)

  pub isr_pass-either : T (isr_pass c)
  unfolding isr_pass
  isr_pass-either =
      let s = c.i2c.value (index Register.s) in
      let pump = if c.xfer.reading then pump_rx s c c.xfer.rx.cells else pump_tx s c c.xfer.tx in
      either T (is_set s s_err) (leave (finalize c nack))
        (if is_set s s_clkt then leave (finalize c clock_timeout) else pump) refused
        (either T (is_set s s_clkt) (leave (finalize c clock_timeout)) pump stretched
          (pump-either s))

-- What every pass keeps, every interrupt keeps.
module _ {W : Type 0} (hw : Slave W) (P : Controller → Type 0)
    (keep : (c : Controller) (w : W) → P c → P (after (isr_pass (sampled c (hw w c.i2c).1)))) where
  turn-keeps :
      (t : Turn) (w : W) (fuel : ℕ)
      → P (after t)
      → ((c : Controller) → P c → P (isr_loop hw fuel c w).0)
      → let e : Controller × W = elim t [ leave c ↦ (c, w) | continue c ↦ isr_loop hw fuel c w ] in
        P e.0
  turn-keeps (leave c) w fuel h ih = h
  turn-keeps (continue c) w fuel h ih = ih c h

  isr_loop-keeps : (fuel : ℕ) (c : Controller) (w : W) → P c → P (isr_loop hw fuel c w).0
  unfolding isr_loop
  isr_loop-keeps zero c w h = h
  isr_loop-keeps (suc fuel) c w h =
      let (w', v) = hw w c.i2c in
      turn-keeps (isr_pass (sampled c v)) w' fuel (keep c w h) λ c' h'. isr_loop-keeps fuel c' w' h'

  pub interrupts-keeps : (n : ℕ) (c : Controller) (w : W) → P c → P (interrupts hw n c w).0
  unfolding interrupts handle_irq
  interrupts-keeps zero c w h = h
  interrupts-keeps (suc n) c w h =
      let r = handle_irq hw c w in
      interrupts-keeps n r.0 r.1 (isr_loop-keeps (suc (pending c)) c w h)

-- A pass that goes on has moved a byte.
abbrev pub Shrinks : ℕ → Turn → Type 0
Shrinks n (leave c) = Unit
Shrinks n (continue c) = pending c < n

isr_pass-Shrinks : (c : Controller) → Shrinks (pending c) (isr_pass c)
isr_pass-Shrinks c =
    isr_pass-either (Shrinks (pending c)) c tt tt tt tt (λ b bs r e. ground (arith, ap length e))
      (λ x xs r e. ground (arith, ap length e))

turn-fuel :
    {W : Type 0} (hw : Slave W) (t : Turn) (w : W) (k n n' : ℕ)
    → Shrinks k t
    → k ≤ n
    → k ≤ n'
    → ((c : Controller) → pending c < n → pending c < n' → isr_loop hw n c w ≡ isr_loop hw n' c w)
    → let e : Controller × W = elim t [ leave c ↦ (c, w) | continue c ↦ isr_loop hw n c w ] in
      let e' : Controller × W = elim t [ leave c ↦ (c, w) | continue c ↦ isr_loop hw n' c w ] in
      e ≡ e'
turn-fuel hw (leave c) w k n n' h l l' ih = refl
turn-fuel hw (continue c) w k n n' h l l' ih = ih c (omega arith) (omega arith)

isr_loop-fuel :
    {W : Type 0} (hw : Slave W) (n n' : ℕ) (c : Controller) (w : W)
    → pending c < n
    → pending c < n'
    → isr_loop hw n c w ≡ isr_loop hw n' c w
unfolding isr_loop
isr_loop-fuel hw zero n' c w l l' = absurd (omega arith)
isr_loop-fuel hw (suc n) zero c w l l' = absurd (omega arith)
isr_loop-fuel hw (suc n) (suc n') c w l l' =
    let (w', v) = hw w c.i2c in
    turn-fuel hw (isr_pass (sampled c v)) w' (pending c) n n' (isr_pass-Shrinks (sampled c v))
      (omega arith) (omega arith) λ c' k k'. isr_loop-fuel hw n n' c' w' k k'

-- The loop of `handle_irq` ends: whatever the hardware does, more passes than one for each byte
-- that is to be moved, and one to leave, change nothing.
pub handle_irq-ends :
    {W : Type 0} (hw : Slave W) (c : Controller) (w : W) (more : ℕ)
    → isr_loop hw (suc (pending c) + more) c w ≡ handle_irq hw c w
unfolding handle_irq
handle_irq-ends hw c w more =
    isr_loop-fuel hw (suc (pending c) + more) (suc (pending c)) c w (omega arith) (omega arith)
