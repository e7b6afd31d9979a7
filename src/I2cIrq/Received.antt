-- ===== src/I2cIrq/Received.antt =====
-- What a read of src/src/i2c/i2c_irq.cpp puts into the buffer.
use rpi3b.Base.{
  ℕ, ◌+◌, ◌≡◌, refl, ap, Bool, true, false, none, List, [], ◌∷◌, length, arith, length-append,
  bit_and,
}
use rpi3b.Word.Field.{bit_and_byte}
use rpi3b.I2c.{read_byte}
use rpi3b.I2cBus.{I2cResult, ok, bad_arg, timeout, nack, clock_timeout, Slave}
use rpi3b.I2cBus.Read.{AllBytes, AllBytes-append, Full}
use rpi3b.I2cIrq.{
  Controller, Line, interrupts, finalize, outcome, isr_pass, sampled, wait_complete, start,
  abort_transfer,
}
use rpi3b.I2cIrq.Isr.{after, popped, isr_pass-either, interrupts-keeps}
use rpi3b.I2cIrq.Calls.{Waited, in_time, expired, wait_loop-Waited}

-- All cells are filled, where the transfer is finished with `ok`.
abbrev pub Complete : Bool → I2cResult → List ℕ → Type 0
Complete false r cells = Unit
Complete true r cells = Full r cells

-- A read of `n` bytes, during or after it.
pub record IsReading (n : ℕ) (c : Controller) : Type 0 where
  pub reading : c.xfer.reading ≡ true
  pub counted : length c.xfer.rx.filled + length c.xfer.rx.cells ≡ n
  pub bytes : AllBytes c.xfer.rx.filled
  pub complete : Complete c.xfer.finished c.xfer.result c.xfer.rx.cells

Full-outcome :
    (reading : Bool) (cells : List ℕ) → reading ≡ true → Full (outcome reading cells) cells
Full-outcome true [] e = refl
Full-outcome true (x ∷ xs) e = tt
Full-outcome false cells e = absurd cc

finalize-IsReading :
    (n : ℕ) (c : Controller) (r : I2cResult)
    → Full r c.xfer.rx.cells
    → IsReading n c
    → IsReading n (finalize c r)
unfolding finalize
finalize-IsReading n c r full h = record {
  reading = h.reading;
  counted = h.counted;
  bytes = h.bytes;
  complete = full;
}

Complete-tail :
    (finished : Bool) (r : I2cResult) (cells : List ℕ) (x : ℕ) (xs : List ℕ)
    → cells ≡ x ∷ xs
    → Complete finished r cells
    → Complete finished r xs
Complete-tail false r cells x xs e h = tt
Complete-tail true ok cells x xs e h = absurd cc
Complete-tail true bad_arg cells x xs e h = tt
Complete-tail true timeout cells x xs e h = tt
Complete-tail true nack cells x xs e h = tt
Complete-tail true clock_timeout cells x xs e h = tt

popped-IsReading :
    (n : ℕ) (c : Controller) (x : ℕ) (xs : List ℕ)
    → c.xfer.rx.cells ≡ x ∷ xs
    → IsReading n c
    → IsReading n (popped c xs)
popped-IsReading n c x xs e h =
    let b = bit_and (read_byte c.i2c) 0xff in
    record {
      reading = h.reading;
      counted = omega (arith, length-append c.xfer.rx.filled (b ∷ []), ap length e, h.counted);
      bytes =
          AllBytes-append c.xfer.rx.filled b h.bytes
            (omega (arith, bit_and_byte (read_byte c.i2c)));
      complete = Complete-tail c.xfer.finished c.xfer.result c.xfer.rx.cells x xs e h.complete;
    }

pass-IsReading : (n : ℕ) (c : Controller) → IsReading n c → IsReading n (after (isr_pass c))
pass-IsReading n c h =
    isr_pass-either (λ t. IsReading n (after t)) c (finalize-IsReading n c nack tt h)
      (finalize-IsReading n c clock_timeout tt h)
      (finalize-IsReading n c (outcome c.xfer.reading c.xfer.rx.cells)
        (Full-outcome c.xfer.reading c.xfer.rx.cells h.reading) h)
      h (λ b bs r e. absurd cc) (λ x xs r e. popped-IsReading n c x xs e h)

sampled-IsReading : (n : ℕ) (c : Controller) (v : ℕ → ℕ) → IsReading n c → IsReading n (sampled c v)
sampled-IsReading n c v h = record {
  reading = h.reading;
  counted = h.counted;
  bytes = h.bytes;
  complete = h.complete;
}

pub interrupts-IsReading :
    {W : Type 0} (hw : Slave W) (n k : ℕ) (c : Controller) (w : W)
    → IsReading n c
    → IsReading n (interrupts hw k c w).0
interrupts-IsReading hw n k c w h =
    interrupts-keeps hw (IsReading n)
      (λ c' w' h'.
        let v = (hw w' c'.i2c).1 in pass-IsReading n (sampled c' v) (sampled-IsReading n c' v h'))
      k c w h

-- The buffer was filled with bytes.
pub record IsFilled (n : ℕ) (c : Controller) : Type 0 where
  pub size : length c.xfer.rx.filled ≡ n
  pub no_cells : c.xfer.rx.cells ≡ []
  pub bytes : AllBytes c.xfer.rx.filled

pub Complete-nil :
    (finished : Bool) (r : I2cResult) (cells : List ℕ)
    → finished ≡ true
    → r ≡ ok
    → Complete finished r cells
    → cells ≡ []
Complete-nil false r cells f e h = absurd cc
Complete-nil true ok cells f e h = h
Complete-nil true bad_arg cells f e h = absurd cc
Complete-nil true timeout cells f e h = absurd cc
Complete-nil true nack cells f e h = absurd cc
Complete-nil true clock_timeout cells f e h = absurd cc

Waited-counted :
    (n : ℕ) (c : Controller) (r : I2cResult)
    → Waited (IsReading n) r c
    → length c.xfer.rx.filled + length c.xfer.rx.cells ≡ n
unfolding abort_transfer
Waited-counted n c r (in_time h f x) = h.counted
Waited-counted n c r (expired c' h f x) = rw f (h.counted)

module _ {W : Type 0} (hw : Slave W) (line : Line W) (c : Controller) (w : W) (addr : ℕ)
    (cells : List ℕ) where
  -- How the wait of a read ends.
  read-Waited :
      let e = wait_complete hw line (start c addr [] cells true none 0) w in
      Waited (IsReading (length cells)) e.0 e.1
  unfolding wait_complete start
  read-Waited =
      let n = length cells in
      let c₀ = start c addr [] cells true none 0 in
      wait_loop-Waited hw line (IsReading n) (λ k c' w' h. interrupts-IsReading hw n k c' w' h)
        c₀.max_waits c₀ w
        (record { reading = refl; counted = omega arith; bytes = tt; complete = tt })

  -- The cells that were filled and those that are left make up the buffer, however the wait ends.
  pub waited-counted :
      let e = wait_complete hw line (start c addr [] cells true none 0) w in
      length e.1.xfer.rx.filled + length e.1.xfer.rx.cells ≡ length cells
  waited-counted =
      let out = wait_complete hw line (start c addr [] cells true none 0) w in
      Waited-counted (length cells) out.1 out.0 read-Waited
