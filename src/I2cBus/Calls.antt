-- ===== src/I2cBus/Calls.antt =====
-- The calls of the polling transport as a caller sees them: rejected arguments, completed reads
-- and combined transfers.
use rpi3b.Base.{
  ℕ, ◌+◌, ◌≡◌, ◌≢◌, refl, ap, ◌∙◌, true, false, arith, Option, some, none, List, [], ◌++◌, length,
  Bool-cases, inl, inr,
}
use mathlib.Core.List.{append-nil}
use mathlib.Core.Path.{subst}
use rpi3b.I2cBus.{
  I2cResult, ok, bad_arg, Slave, Filling, Transport, bad_args, write, read, write_read, then_read,
  receive,
}
use rpi3b.I2c.{start_read}
use rpi3b.I2cBus.{prime}
use rpi3b.I2cBus.Write.{transmit-IsTransmitted}
use rpi3b.I2cBus.Read.{Full, AllBytes, receive-IsReceived}
use rpi3b.I2cBus.Loop.{Explains}

explained-ne-bad_arg : (r : I2cResult) (s : ℕ) → Explains r s → r ≢ bad_arg
explained-ne-bad_arg bad_arg s h e = h
explained-ne-bad_arg _ s h e = cc

AllBytes-full :
    (n : ℕ) (f : Filling)
    → length f.filled + length f.cells ≡ n
    → AllBytes f.filled
    → f.cells ≡ []
    → (length (f.filled ++ f.cells) ≡ n) × AllBytes (f.filled ++ f.cells)
AllBytes-full n f c b e =
    let whole : f.filled ++ f.cells ≡ f.filled =
      ap (λ (l : List ℕ). f.filled ++ l) e ∙ append-nil f.filled in
    rw whole (omega (arith, c, ap length e), b)

module _ {W : Type 0} (hw : Slave W) (t : Transport) (w : W) (addr : ℕ) where
  -- A null or empty buffer, or an address above 0x7f, gives `bad_arg` from each of the three
  -- calls, and neither the registers, nor the slave, nor a buffer changes.
  pub reject_args :
      (buf other : Option (List ℕ))
      → bad_args addr buf ≡ true
      → (write hw t w addr buf ≡ (bad_arg, t, w))
        × (read hw t w addr buf ≡ (bad_arg, t, w, buf))
        × (write_read hw t w addr buf other ≡ (bad_arg, t, w, other))
  unfolding write read write_read
  reject_args none other h = (refl, refl, refl)
  reject_args (some buf) other h =
      let rejected : write hw t w addr (some buf) ≡ (bad_arg, t, w) = rw h in
      (
        rejected,
        rw h,
        ap (λ (p : I2cResult × Transport × W). then_read hw p.0 p.1 p.2 addr other) rejected,
      )

  -- The calls give `bad_arg` for no other arguments.
  pub accept_args :
      (buf : Option (List ℕ))
      → bad_args addr buf ≡ false
      → ((write hw t w addr buf).0 ≢ bad_arg) × ((read hw t w addr buf).0 ≢ bad_arg)
  unfolding write read
  accept_args none h = absurd (cc)
  accept_args (some buf) h = rw h (
    explained-ne-bad_arg _ _ (transmit-IsTransmitted hw t w addr buf).explained,
    explained-ne-bad_arg _ _ (receive-IsReceived hw t w addr buf).explained,
  )

  -- A read that gives `ok` filled the whole buffer with bytes, and made no store after those that
  -- start the transfer.
  pub read_ok :
      (cells : List ℕ)
      → (read hw t w addr (some cells)).0 ≡ ok
      → (out : List ℕ) × ((read hw t w addr (some cells)).3 ≡ some out)
        × (length out ≡ length cells)
        × AllBytes out
        × ((read hw t w addr (some cells)).1.i2c.stores
            ≡ (start_read (prime t.i2c addr (length cells))).stores)
  unfolding read
  read_ok cells h = elim (Bool-cases (bad_args addr (some cells))) [
    | inl bad ↦ absurd (let e : bad_arg ≡ ok = rw bad at h in cc)
    | inr good ↦
        let e = receive hw t w addr cells in
        let got = receive-IsReceived hw t w addr cells in
        let done : e.result ≡ ok = rw good at h in
        let full =
          AllBytes-full (length cells) e.left got.counted got.bytes
            (subst (λ r. Full r e.left.cells) done got.full) in
        rw good (e.left.filled ++ e.left.cells, refl, full.0, full.1, got.no_stores)
  ]

module _ {W : Type 0} (hw : Slave W) (addr : ℕ) (cells : List ℕ) where
  then_read_ok :
      (r : I2cResult) (t : Transport) (w : W)
      → (then_read hw r t w addr (some cells)).0 ≡ ok
      → (r ≡ ok)
        × (out : List ℕ) × ((then_read hw r t w addr (some cells)).3 ≡ some out)
        × (length out ≡ length cells)
        × AllBytes out
  unfolding then_read
  then_read_ok ok t w h =
      let (out, buffer, len, bytes, stores) = read_ok hw t w addr cells h in
      (refl, out, buffer, len, bytes)
  then_read_ok _ t w h = absurd (cc)

  -- A combined transfer that gives `ok` is a write that gave `ok`, followed by a read that filled
  -- the second buffer with as many bytes as it has cells.
  pub write_read_ok :
      (t : Transport) (w : W) (wbuf : Option (List ℕ))
      → (write_read hw t w addr wbuf (some cells)).0 ≡ ok
      → ((write hw t w addr wbuf).0 ≡ ok)
        × (out : List ℕ) × ((write_read hw t w addr wbuf (some cells)).3 ≡ some out)
        × (length out ≡ length cells)
        × AllBytes out
  unfolding write_read
  write_read_ok t w wbuf h = let (r, t', w') = write hw t w addr wbuf in then_read_ok r t' w' h
