-- ===== src/I2cBus/Serve.antt =====
-- A write to a slave that takes every byte ends with all of them sent, within the spin budget.
use rpi3b.Base.{
  ℕ, zero, suc, ◌≤◌, ◌<◌, ◌≡◌, refl, ap, ◌∙◌, true, false, arith, some, List, [], ◌∷◌, length,
  bit_and,
}
use rpi3b.Word.Single.{is_set}
use rpi3b.Mmio.{Mmio}
use rpi3b.I2c.Registers.{Register, index}
use rpi3b.I2c.{start_write, write_byte}
use rpi3b.I2cBus.{
  ok, Slave, stop, again, poll_loop, s_done, s_err, s_clkt, s_txd, Transport, prime, write_pass,
  transmit, feed, addr_max, write, bad_args,
}
use rpi3b.I2cBus.Write.{pushes, primed}

-- The status word that a poll reads.
abbrev pub polled : {W : Type 0} → Slave W → W → Mmio → ℕ
polled hw w m = (hw w m).1 (index Register.s)

pub stores-write_byte :
    (m : Mmio) (b : ℕ) → (write_byte m b).stores ≡ (index Register.fifo, bit_and b 0xff) ∷ m.stores
unfolding write_byte
stores-write_byte m b = refl

-- A slave that never reports an error, has room for a byte at each poll, and reports DONE once
-- the stores made are those in `complete`.
pub record Serves {W : Type 0} (hw : Slave W) (complete : List (ℕ × ℕ)) : Type 0 where
  pub no_err : (w : W) (m : Mmio) → is_set (polled hw w m) s_err ≡ false
  pub no_clkt : (w : W) (m : Mmio) → is_set (polled hw w m) s_clkt ≡ false
  pub has_room : (w : W) (m : Mmio) → is_set (polled hw w m) s_txd ≡ true
  pub reports_done : (w : W) (m : Mmio) → m.stores ≡ complete → is_set (polled hw w m) s_done ≡ true

module _ {W : Type 0} (hw : Slave W) (complete : List (ℕ × ℕ)) (serves : Serves hw complete) where
  pass_pushes :
      (w : W) (m : Mmio) (b : ℕ) (bs : List ℕ)
      → let m' = record m { value = (hw w m).1 } in
        write_pass m' (b ∷ bs) ≡ again (write_byte m' b) bs
  unfolding write_pass feed
  pass_pushes w m b bs = rw (serves.no_err w m, serves.no_clkt w m, serves.has_room w m)

  pass_ends :
      (w : W) (m : Mmio)
      → m.stores ≡ complete
      → write_pass (record m { value = (hw w m).1 }) [] ≡ stop ok
  unfolding write_pass feed
  pass_ends w m e = rw (serves.no_err w m, serves.no_clkt w m, serves.reports_done w m e)

  pub poll_loop-Serves :
      (bs : List ℕ) (spins : ℕ) (m : Mmio) (w : W)
      → length bs < spins
      → pushes bs m.stores ≡ complete
      → let e = poll_loop write_pass hw spins m w bs in
        (e.result ≡ ok) × (e.left ≡ []) × (e.regs.stores ≡ complete)
  unfolding poll_loop
  poll_loop-Serves bs zero m w lt e = absurd (omega arith)
  poll_loop-Serves [] (suc spins) m w lt e = rw (pass_ends w m e, poll_loop) (refl, refl, e)
  poll_loop-Serves (b ∷ bs) (suc spins) m w lt e =
      let m' = write_byte (record m { value = (hw w m).1 }) b in
      rw (pass_pushes w m b bs, poll_loop)
        (poll_loop-Serves bs spins m' (hw w m).0 (omega arith)
          (ap (pushes bs) (stores-write_byte (record m { value = (hw w m).1 }) b) ∙ e))

-- With a slave that serves the write, and more spins than bytes, `write` of a buffer that is not
-- empty to a 7-bit address gives `ok`, and the stores behind those that start the transfer are
-- exactly the bytes of the buffer, in order.
pub write-Serves :
    {W : Type 0} (hw : Slave W) (t : Transport) (w : W) (addr : ℕ) (bytes : List ℕ)
    → Serves hw (pushes bytes (primed hw t w addr bytes))
    → addr ≤ addr_max
    → 0 < length bytes
    → length bytes < t.max_spins
    → let (r, t', w') = write hw t w addr (some bytes) in
      (r ≡ ok) × (t'.i2c.stores ≡ pushes bytes (primed hw t w addr bytes))
unfolding write
write-Serves hw t w addr bytes serves h pos lt =
    let good : bad_args addr (some bytes) ≡ false = ground arith in
    let e =
      poll_loop-Serves hw (pushes bytes (primed hw t w addr bytes)) serves bytes t.max_spins
        (start_write (prime t.i2c addr (length bytes))) w lt refl in
    rw good (unfold transmit in (e.0, e.2))
