-- ===== src/I2cTransport/Waiting.antt =====
-- The interrupt-driven transport of src/src/i2c/i2c_irq.cpp as an implementation of the interface.
use rpi3b.Base.{
  ℕ, ◌≡◌, ◌≢◌, refl, ap, sym, ◌∙◌, Bool, true, false, Option, none, some, List, [], ◌∷◌, ◌++◌,
  length-append, arith, Bool-cases, inl, inr, if◌then◌else◌,
}
use rpi3b.I2cBus.{I2cResult, ok, bad_arg, timeout, nack, clock_timeout, bad_args, Slave}
use rpi3b.I2cIrq.{
  Controller, Line, finalize, outcome, isr_pass, sampled, start, wait_complete, write, read,
  then_read, write_read,
}
use rpi3b.I2cIrq.Calls.{Waited, in_time, expired, wait_loop-Waited}
use rpi3b.I2cIrq.Isr.{after, isr_pass-either, interrupts-keeps}
use rpi3b.I2cIrq.Received.{waited-counted}
use rpi3b.I2cTransport.{I2cTransport, IsTransport, SameLength, SameLength-refl}

-- The caller's buffer after `read`: as it was, or what the transfer left in it.
abbrev pub received : ℕ → Option (List ℕ) → Controller → Option (List ℕ)
received addr none c = none
received addr (some cells) c =
    if bad_args addr (some cells) then some cells else some (c.xfer.rx.filled ++ c.xfer.rx.cells)

-- The buffer after `write_read`, which reads only behind a write that gave `ok`.
abbrev pub received_after : I2cResult → ℕ → Option (List ℕ) → Controller → Option (List ℕ)
received_after ok addr rbuf c = received addr rbuf c
received_after failed addr rbuf c = rbuf

-- A result that a transfer may have.
abbrev Proper : Controller → Type 0
Proper c = c.xfer.result ≢ bad_arg

outcome-ne : (reading : Bool) (cells : List ℕ) → outcome reading cells ≢ bad_arg
outcome-ne false cells e = cc
outcome-ne true [] e = cc
outcome-ne true (x ∷ xs) e = cc

pass-Proper : (c : Controller) → Proper c → Proper (after (isr_pass c))
unfolding finalize
pass-Proper c h =
    isr_pass-either (λ t. Proper (after t)) c (λ e. cc) (λ e. cc)
      (outcome-ne c.xfer.reading c.xfer.rx.cells) h (λ b bs r e. h) (λ x xs r e. h)

Waited-ne : (r : I2cResult) (c : Controller) → Waited Proper r c → r ≢ bad_arg
Waited-ne r c (in_time h f x) = λ e. h (sym x ∙ e)
Waited-ne r c (expired c' h f x) = λ e. cc

module _ {W : Type 0} (hw : Slave W) (line : Line W) where
  started-ne :
      (c : Controller) (w : W) (addr : ℕ) (tx cells : List ℕ) (reading : Bool)
      → (wait_complete hw line (start c addr tx cells reading none 0) w).0 ≢ bad_arg
  unfolding wait_complete start
  started-ne c w addr tx cells reading =
      let c₀ = start c addr tx cells reading none 0 in
      let out = wait_complete hw line c₀ w in
      Waited-ne out.0 out.1 (
        wait_loop-Waited hw line Proper
          (λ k c' w' h.
            interrupts-keeps hw Proper
              (λ c'' w'' h'. pass-Proper (sampled c'' (hw w'' c''.i2c).1) h') k c' w' h)
          c₀.max_waits c₀ w (λ e. cc))

  unfoldable pub waiting : I2cTransport (Controller × W)
  waiting = record {
    write = λ (c, w) addr buf. let (r, c', w') = write hw line c w addr buf in (r, (c', w'));
    read = λ (c, w) addr buf.
        let (r, c', w') = read hw line c w addr buf in (r, (c', w'), received addr buf c');
    write_read = λ (c, w) addr wbuf rbuf.
        let (r, c', w') = write_read hw line c w addr wbuf rbuf in
        (r, (c', w'), received_after (write hw line c w addr wbuf).0 addr rbuf c');
  }

  module _ (c : Controller) (w : W) (addr : ℕ) where
    reject_args :
        (buf : Option (List ℕ))
        → bad_args addr buf ≡ true
        → (write hw line c w addr buf ≡ (bad_arg, c, w))
          × (read hw line c w addr buf ≡ (bad_arg, c, w))
          × (received addr buf c ≡ buf)
    unfolding write read
    reject_args none h = (refl, refl, refl)
    reject_args (some bytes) h = rw h (refl, refl, refl)

    accept_args :
        (buf : Option (List ℕ))
        → bad_args addr buf ≡ false
        → ((write hw line c w addr buf).0 ≢ bad_arg) × ((read hw line c w addr buf).0 ≢ bad_arg)
    unfolding write read
    accept_args none h = absurd cc
    accept_args (some bytes) h =
        rw h (started-ne c w addr bytes [] false, started-ne c w addr [] bytes true)

    read-keeps :
        (buf : Option (List ℕ)) → SameLength buf (received addr buf (read hw line c w addr buf).1)
    unfolding read
    read-keeps none = tt
    read-keeps (some cells) = elim (Bool-cases (bad_args addr (some cells))) [
      | inl bad ↦ rw bad refl
      | inr good ↦
          let c' = (wait_complete hw line (start c addr [] cells true none 0) w).1 in
          rw good (
            omega (
              arith,
              waited-counted hw line c w addr cells,
              length-append c'.xfer.rx.filled c'.xfer.rx.cells,
            ))
    ]

  then_read-keeps :
      (r : I2cResult) (c : Controller) (w : W) (addr : ℕ) (buf : Option (List ℕ))
      → SameLength buf (received_after r addr buf (then_read hw line r c w addr buf).1)
  unfolding then_read
  then_read-keeps ok c w addr buf = read-keeps c w addr buf
  then_read-keeps _ c w addr buf = SameLength-refl buf

  then_read-accepts :
      (r : I2cResult) (c : Controller) (w : W) (addr : ℕ) (buf : Option (List ℕ))
      → r ≢ bad_arg
      → bad_args addr buf ≡ false
      → (then_read hw line r c w addr buf).0 ≢ bad_arg
  unfolding then_read
  then_read-accepts ok c w addr buf ne good = (accept_args c w addr buf good).1
  then_read-accepts _ c w addr buf ne good = ne

  then_read-unread :
      (r : I2cResult) (c : Controller) (w : W) (addr : ℕ) (buf : Option (List ℕ))
      → bad_args addr buf ≡ true
      → ((then_read hw line r c w addr buf).0 ≢ ok)
        × (received_after r addr buf (then_read hw line r c w addr buf).1 ≡ buf)
  unfolding then_read
  then_read-unread ok c w addr buf bad =
      let e = reject_args c w addr buf bad in rw (e.1) ((λ x. cc), e.2)
  then_read-unread bad_arg c w addr buf bad = ((λ x. cc), refl)
  then_read-unread timeout c w addr buf bad = ((λ x. cc), refl)
  then_read-unread nack c w addr buf bad = ((λ x. cc), refl)
  then_read-unread clock_timeout c w addr buf bad = ((λ x. cc), refl)

  -- The interrupt-driven transport keeps the promise of the interface, whatever the hardware does
  -- and however often its interrupt arrives in a wait.
  pub waiting-IsTransport : IsTransport waiting
  unfolding waiting write_read
  waiting-IsTransport = record {
    write_rejects = λ (c, w) addr buf h.
        ap (λ (p : I2cResult × Controller × W). (p.0, (p.1, p.2))) (reject_args c w addr buf h).0;
    write_accepts = λ (c, w) addr buf h. (accept_args c w addr buf h).0;
    read_rejects = λ (c, w) addr buf h.
        ap (λ (p : I2cResult × Controller × W). (p.0, (p.1, p.2), received addr buf p.1))
          (reject_args c w addr buf h).1
        ∙ ap (λ (out : Option (List ℕ)). (bad_arg, (c, w), out)) (reject_args c w addr buf h).2;
    read_accepts = λ (c, w) addr buf h. (accept_args c w addr buf h).1;
    write_read_rejects = λ (c, w) addr wbuf rbuf h.
        ap
          (λ (p : I2cResult × Controller × W).
            let (r, c', w') = then_read hw line p.0 p.1 p.2 addr rbuf in
            (r, (c', w'), received_after p.0 addr rbuf c'))
          (reject_args c w addr wbuf h).0;
    write_read_unread = λ (c, w) addr wbuf rbuf h.
        let (r, c', w') = write hw line c w addr wbuf in then_read-unread r c' w' addr rbuf h;
    write_read_accepts = λ (c, w) addr wbuf rbuf h k.
        let (r, c', w') = write hw line c w addr wbuf in
        then_read-accepts r c' w' addr rbuf (accept_args c w addr wbuf h).0 k;
    write_read_keeps = λ (c, w) addr wbuf rbuf.
        let (r, c', w') = write hw line c w addr wbuf in then_read-keeps r c' w' addr rbuf;
  }
