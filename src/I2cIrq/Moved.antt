-- ===== src/I2cIrq/Moved.antt =====
-- The bytes that `handle_irq` moves.
use rpi3b.Base.{
  ℕ, ◌+◌, ◌≡◌, refl, sym, ap, ◌∙◌, arith, if◌then◌else◌, ◌==◌, List, [], ◌∷◌, ◌++◌, map, length,
  bit_and, length-append,
}
use mathlib.Core.List.{append_assoc}
use rpi3b.Word.Field.{bit_and_byte}
use rpi3b.Mmio.{Mmio, and_assign}
use rpi3b.Mmio.Fields.{clr_field}
use rpi3b.I2c.Registers.{Register, index}
use rpi3b.I2c.{read_byte, write_byte, clr_status, clr_control}
use rpi3b.I2cBus.{Slave, I2cResult}
use rpi3b.I2cBus.Read.{AllBytes, AllBytes-append}
use rpi3b.I2cIrq.{Controller, finalize, isr_pass, sampled, interrupts, quiet}
use rpi3b.I2cIrq.Isr.{after, pushed, popped, isr_pass-either, interrupts-keeps}

-- The words stored into the FIFO, in order.
abbrev pub fifo_log : List (ℕ × ℕ) → List ℕ
fifo_log [] = []
fifo_log ((r, v) ∷ rest) =
    if r == index Register.fifo then fifo_log rest ++ v ∷ [] else fifo_log rest

abbrev pub byte : ℕ → ℕ
byte b = bit_and b 0xff

-- The bytes sent, followed by those that are still to be sent.
abbrev pub outgoing : Controller → List ℕ
outgoing c = fifo_log c.i2c.stores ++ map byte c.xfer.tx

-- The size of the receive buffer.
abbrev pub capacity : Controller → ℕ
capacity c = length c.xfer.rx.filled + length c.xfer.rx.cells

-- No byte was lost or repeated on the way from one state to another.
pub record IsMoved (c c' : Controller) : Type 0 where
  pub sent : outgoing c' ≡ outgoing c
  pub received : capacity c' ≡ capacity c
  pub bytes : AllBytes c'.xfer.rx.filled

pub fifo_log-quiet : (m : Mmio) → fifo_log (quiet m).stores ≡ fifo_log m.stores
unfolding quiet clr_status clr_control clr_field and_assign
fifo_log-quiet m = refl

finalize-IsMoved : (c₀ c : Controller) (r : I2cResult) → IsMoved c₀ c → IsMoved c₀ (finalize c r)
unfolding finalize
finalize-IsMoved c₀ c r h = record {
  sent = ap (λ (l : List ℕ). l ++ map byte c.xfer.tx) (fifo_log-quiet c.i2c) ∙ h.sent;
  received = h.received;
  bytes = h.bytes;
}

pushed-IsMoved :
    (c₀ c : Controller) (b : ℕ) (bs : List ℕ)
    → c.xfer.tx ≡ b ∷ bs
    → IsMoved c₀ c
    → IsMoved c₀ (pushed c b bs)
unfolding write_byte
pushed-IsMoved c₀ c b bs e h = record {
  sent =
      append_assoc (fifo_log c.i2c.stores) (byte b ∷ []) (map byte bs)
      ∙ ap (λ (l : List ℕ). fifo_log c.i2c.stores ++ map byte l) (sym e)
      ∙ h.sent;
  received = h.received;
  bytes = h.bytes;
}

popped-IsMoved :
    (c₀ c : Controller) (x : ℕ) (xs : List ℕ)
    → c.xfer.rx.cells ≡ x ∷ xs
    → IsMoved c₀ c
    → IsMoved c₀ (popped c xs)
popped-IsMoved c₀ c x xs e h =
    let b = bit_and (read_byte c.i2c) 0xff in
    record {
      sent = h.sent;
      received = omega (arith, length-append c.xfer.rx.filled (b ∷ []), ap length e, h.received);
      bytes =
          AllBytes-append c.xfer.rx.filled b h.bytes
            (omega (arith, bit_and_byte (read_byte c.i2c)));
    }

pass-IsMoved : (c₀ c : Controller) → IsMoved c₀ c → IsMoved c₀ (after (isr_pass c))
pass-IsMoved c₀ c h =
    isr_pass-either (λ t. IsMoved c₀ (after t)) c (finalize-IsMoved c₀ c _ h)
      (finalize-IsMoved c₀ c _ h) (finalize-IsMoved c₀ c _ h) h
      (λ b bs r e. pushed-IsMoved c₀ c b bs e h) (λ x xs r e. popped-IsMoved c₀ c x xs e h)

-- Whatever the hardware does, and however often the interrupt arrives: the words stored into the
-- FIFO, followed by the bytes that are still to be sent, stay the same, so that no byte is lost,
-- repeated or sent out of order; the receive buffer keeps its size, and holds bytes.
pub interrupts-IsMoved :
    {W : Type 0} (hw : Slave W) (n : ℕ) (c : Controller) (w : W)
    → AllBytes c.xfer.rx.filled
    → IsMoved c (interrupts hw n c w).0
interrupts-IsMoved hw n c w h =
    interrupts-keeps hw (IsMoved c)
      (λ c' w' k.
        pass-IsMoved c (sampled c' (hw w' c'.i2c).1)
          (record { sent = k.sent; received = k.received; bytes = k.bytes }))
      n c w (record { sent = refl; received = refl; bytes = h })
