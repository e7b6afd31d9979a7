-- ===== src/I2cBus/Supply.antt =====
-- A read from a slave that has a byte at each poll ends with the buffer full, within the spin
-- budget.
use rpi3b.Base.{
  ℕ, zero, suc, ◌%◌, ◌≤◌, ◌<◌, ◌≡◌, refl, ap, ap₂, ◌∙◌, true, false, arith, some, List, [], ◌∷◌,
  ◌++◌, length, bit_and, sym,
}
use mathlib.Core.List.{append_assoc, append-nil}
use rpi3b.Word.Single.{is_set}
use rpi3b.Word.Field.{bit_and_byte}
use rpi3b.Mmio.{Mmio}
use rpi3b.I2c.Registers.{Register, index}
use rpi3b.I2c.{start_read, read_byte}
use rpi3b.I2cBus.{
  ok, Slave, stop, again, poll_loop, s_done, s_err, s_clkt, s_rxd, Transport, prime, read_pass,
  receive, drain, addr_max, read, bad_args,
}
use rpi3b.I2cBus.Serve.{polled}

-- The bytes that the first `n` polls find in the FIFO, and the state of the slave after them.
abbrev pub offered : {W : Type 0} → Slave W → ℕ → W → Mmio → List ℕ
offered hw zero w m = []
offered hw (suc n) w m =
    let (w', v) = hw w m in v (index Register.fifo) % 256 ∷ offered hw n w' (record m { value = v })

-- A slave that never reports an error, and has a byte and the end of the transfer to report at
-- each poll.
pub record Supplies {W : Type 0} (hw : Slave W) : Type 0 where
  pub no_err : (w : W) (m : Mmio) → is_set (polled hw w m) s_err ≡ false
  pub no_clkt : (w : W) (m : Mmio) → is_set (polled hw w m) s_clkt ≡ false
  pub has_byte : (w : W) (m : Mmio) → is_set (polled hw w m) s_rxd ≡ true
  pub reports_done : (w : W) (m : Mmio) → is_set (polled hw w m) s_done ≡ true

pub byte_twice : (x : ℕ) → bit_and (bit_and x 0xff) 0xff ≡ x % 256
byte_twice x = omega (arith, bit_and_byte x, bit_and_byte (bit_and x 0xff))

module _ {W : Type 0} (hw : Slave W) (supplies : Supplies hw) where
  pass_fills :
      (w : W) (m : Mmio) (got : List ℕ) (c : ℕ) (cs : List ℕ)
      → let v = (hw w m).1 in
        read_pass (record m { value = v }) (record { filled = got; cells = c ∷ cs })
        ≡ again
            (record m { value = v })
            (record { filled = got ++ v (index Register.fifo) % 256 ∷ []; cells = cs })
  unfolding read_pass drain read_byte
  pass_fills w m got c cs =
      rw (
        supplies.no_err w m,
        supplies.no_clkt w m,
        supplies.has_byte w m,
        byte_twice ((hw w m).1 4),
      )

  pass_ends :
      (w : W) (m : Mmio) (got : List ℕ)
      → read_pass (record m { value = (hw w m).1 }) (record { filled = got; cells = [] }) ≡ stop ok
  unfolding read_pass drain
  pass_ends w m got = rw (supplies.no_err w m, supplies.no_clkt w m, supplies.reports_done w m)

  poll_loop-Supplies :
      (cells got : List ℕ) (spins : ℕ) (m : Mmio) (w : W)
      → length cells < spins
      → let e = poll_loop read_pass hw spins m w (record { filled = got; cells = cells }) in
        (e.result ≡ ok)
        × (e.left.filled ≡ got ++ offered hw (length cells) w m)
        × (e.left.cells ≡ [])
  unfolding poll_loop
  poll_loop-Supplies cells got zero m w lt = absurd (omega arith)
  poll_loop-Supplies [] got (suc spins) m w lt =
      rw (pass_ends w m got, poll_loop) (refl, sym (append-nil got), refl)
  poll_loop-Supplies (c ∷ cs) got (suc spins) m w lt =
      let (w', v) = hw w m in
      let b = v (index Register.fifo) % 256 in
      let m' = record m { value = v } in
      let ih = poll_loop-Supplies cs (got ++ b ∷ []) spins m' w' (omega arith) in
      rw (pass_fills w m got c cs, poll_loop)
        (ih.0, ih.1 ∙ append_assoc got (b ∷ []) (offered hw (length cs) w' m'), ih.2)

-- With a slave that supplies a byte at each poll, and more spins than cells, `read` of a buffer
-- that is not empty from a 7-bit address gives `ok`, and the buffer holds the bytes that the polls
-- found in the FIFO, in order.
pub read-Supplies :
    {W : Type 0} (hw : Slave W) (t : Transport) (w : W) (addr : ℕ) (cells : List ℕ)
    → Supplies hw
    → addr ≤ addr_max
    → 0 < length cells
    → length cells < t.max_spins
    → let started = start_read (prime t.i2c addr (length cells)) in
      let (r, t', w', buf) = read hw t w addr (some cells) in
      (r ≡ ok) × (buf ≡ some (offered hw (length cells) w started))
unfolding read
read-Supplies hw t w addr cells supplies h pos lt =
    let good : bad_args addr (some cells) ≡ false = ground arith in
    let started = start_read (prime t.i2c addr (length cells)) in
    let e = poll_loop-Supplies hw supplies cells [] t.max_spins started w lt in
    rw good (
      unfold receive in e.0,
      unfold receive in
          (ap some (ap₂ ◌++◌ e.1 e.2 ∙ append-nil (offered hw (length cells) w started))),
    )
