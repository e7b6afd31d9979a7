-- ===== src/I2cBus/Write.antt =====
-- `Bcm2837I2cTransport::write`: which stores it makes, and what its result means.
use rpi3b.Base.{
  ℕ, ◌≡◌, refl, sym, ap, ◌∙◌, false, List, [], ◌∷◌, ◌++◌, length, bit_and, if◌then◌else◌,
}
use mathlib.Core.List.{append_assoc}
use rpi3b.Word.Single.{is_set}
use rpi3b.Mmio.{Mmio}
use rpi3b.I2c.Registers.{Register, index}
use rpi3b.I2c.{start_write, write_byte}
use rpi3b.I2cBus.{
  I2cResult, timeout, nack, clock_timeout, Slave, stop, again, s_done, s_err, s_clkt, s_txd,
  Transport, prime, write_pass, transmit, feed, classify,
}
use rpi3b.I2cBus.Loop.{Explains, Keeps, Keeps-if, classify_calm, poll_loop_inv}

-- The record of stores after bytes were pushed into the FIFO, one store each, in order.
abbrev pub pushes : List ℕ → List (ℕ × ℕ) → List (ℕ × ℕ)
pushes [] log = log
pushes (b ∷ bs) log = pushes bs ((index Register.fifo, bit_and b 0xff) ∷ log)

pushes-append :
    (bs : List ℕ) (b : ℕ) (log : List (ℕ × ℕ))
    → pushes (bs ++ b ∷ []) log ≡ (index Register.fifo, bit_and b 0xff) ∷ pushes bs log
pushes-append [] b log = refl
pushes-append (x ∷ bs) b log = pushes-append bs b ((index Register.fifo, bit_and x 0xff) ∷ log)

-- A write of `bytes` that began with the stores `log` ended with `result` and the registers `m`.
pub record IsTransmitted (bytes : List ℕ) (log : List (ℕ × ℕ)) (result : I2cResult) (m : Mmio)
    : Type 0 where
  pub sent : List ℕ
  pub unsent : List ℕ
  pub split : sent ++ unsent ≡ bytes
  pub stored : m.stores ≡ pushes sent log
  pub explained : Explains result (m.value (index Register.s))

-- Between two passes.
record IsSending (bytes : List ℕ) (log : List (ℕ × ℕ)) (m : Mmio) (rest : List ℕ) : Type 0 where
  sent : List ℕ
  split : sent ++ rest ≡ bytes
  stored : m.stores ≡ pushes sent log

module _ (bytes : List ℕ) (log : List (ℕ × ℕ)) where
  abbrev Sending : Mmio → List ℕ → Type 0
  Sending = IsSending bytes log

  abbrev Sent : I2cResult → Mmio → List ℕ → Type 0
  Sent r m rest = IsTransmitted bytes log r m

  finish :
      (m : Mmio) (rest : List ℕ) (r : I2cResult)
      → IsSending bytes log m rest
      → Explains r (m.value (index Register.s))
      → IsTransmitted bytes log r m
  finish m rest r h e = record {
    sent = h.sent;
    unsent = rest;
    split = h.split;
    stored = h.stored;
    explained = e;
  }

  push :
      (m : Mmio) (b : ℕ) (bs : List ℕ)
      → IsSending bytes log m (b ∷ bs)
      → IsSending bytes log (write_byte m b) bs
  unfolding write_byte
  push m b bs h = record {
    sent = h.sent ++ b ∷ [];
    split = append_assoc h.sent (b ∷ []) bs ∙ h.split;
    stored =
        ap (λ l. (index Register.fifo, bit_and b 0xff) ∷ l) h.stored
        ∙ sym (pushes-append h.sent b log);
  }

  feed-Keeps :
      (m : Mmio) (rest : List ℕ)
      → is_set (m.value (index Register.s)) s_err ≡ false
      → is_set (m.value (index Register.s)) s_clkt ≡ false
      → IsSending bytes log m rest
      → Keeps Sending Sent m rest (feed m (m.value (index Register.s)) rest)
  unfolding feed
  feed-Keeps m [] e c h =
      let s = m.value 1 in
      Keeps-if Sending Sent m [] (is_set s s_done) (stop (classify s)) (again m [])
        (λ d. finish m [] (classify s) h (rw (classify_calm s e c) (d, e, c))) (λ _. h)
  feed-Keeps m (b ∷ bs) e c h =
      let s = m.value 1 in
      Keeps-if Sending Sent m (b ∷ bs) (is_set s s_txd) (again (write_byte m b) bs)
        (if is_set s s_done then stop (classify s) else again m (b ∷ bs)) (λ _. push m b bs h)
        λ _.
          Keeps-if Sending Sent m (b ∷ bs) (is_set s s_done) (stop (classify s)) (again m (b ∷ bs))
            (λ d. finish m (b ∷ bs) (classify s) h (rw (classify_calm s e c) (d, e, c))) (λ _. h)

  write_pass-Keeps :
      (m : Mmio) (rest : List ℕ)
      → IsSending bytes log m rest
      → Keeps Sending Sent m rest (write_pass m rest)
  unfolding write_pass
  write_pass-Keeps m rest h =
      let s = m.value 1 in
      Keeps-if Sending Sent m rest (is_set s s_err) (stop nack)
        (if is_set s s_clkt then stop clock_timeout else feed m s rest)
        (λ e. finish m rest nack h e)
        λ e.
          Keeps-if Sending Sent m rest (is_set s s_clkt) (stop clock_timeout) (feed m s rest)
            (λ c. finish m rest clock_timeout h (e, c)) (λ c. feed-Keeps m rest e c h)

module _ {W : Type 0} (hw : Slave W) (t : Transport) (w : W) (addr : ℕ) (bytes : List ℕ) where
  -- The stores made when the loop begins.
  abbrev pub primed : List (ℕ × ℕ)
  primed = (start_write (prime t.i2c addr (length bytes))).stores

  -- Whatever the slave does: behind the stores that start the transfer, the loop stores the first
  -- bytes of the buffer into the FIFO, each once and in order, and makes no other store. A `nack`
  -- means that the last status had ERR, a `clock_timeout` that it had CLKT and no ERR, and an `ok`
  -- that it had DONE and neither error.
  pub transmit-IsTransmitted :
      let e = transmit hw t w addr bytes in IsTransmitted bytes primed e.result e.regs
  unfolding transmit
  transmit-IsTransmitted =
      poll_loop_inv write_pass hw (Sending bytes primed) (Sent bytes primed)
        (λ m v rest h.
          write_pass-Keeps bytes primed (record m { value = v }) rest (again_sending m v rest h))
        (λ m rest h. finish bytes primed m rest timeout h tt) t.max_spins
        (start_write (prime t.i2c addr (length bytes))) w bytes
        (record { sent = []; split = refl; stored = refl })
    where
      again_sending :
          (m : Mmio) (v : ℕ → ℕ) (rest : List ℕ)
          → IsSending bytes primed m rest
          → IsSending bytes primed (record m { value = v }) rest
      again_sending m v rest h = record { sent = h.sent; split = h.split; stored = h.stored }
