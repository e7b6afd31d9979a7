-- ===== src/I2cTransport/Polling.antt =====
-- The polling transport keeps the promise of the interface, against any slave.
use rpi3b.Base.{
  ℕ, ◌≡◌, ◌≢◌, refl, ap, true, false, Option, none, some, List, length-append, arith, Bool-cases,
  inl, inr,
}
use rpi3b.I2cBus.{
  I2cResult, ok, bad_arg, timeout, nack, clock_timeout, bad_args, Transport, Slave, write, read,
  then_read, write_read, receive,
}
use rpi3b.I2cBus.Calls.{reject_args, accept_args}
use rpi3b.I2cBus.Read.{receive-IsReceived}
use rpi3b.I2cTransport.{I2cTransport, IsTransport, SameLength, SameLength-refl}

module _ {W : Type 0} (hw : Slave W) where
  unfoldable pub polling : I2cTransport (Transport × W)
  polling = record {
    write = λ (t, w) addr buf. let (r, t', w') = write hw t w addr buf in (r, (t', w'));
    read = λ (t, w) addr buf. let (r, t', w', out) = read hw t w addr buf in (r, (t', w'), out);
    write_read = λ (t, w) addr wbuf rbuf.
        let (r, t', w', out) = write_read hw t w addr wbuf rbuf in (r, (t', w'), out);
  }

  read-keeps :
      (t : Transport) (w : W) (addr : ℕ) (buf : Option (List ℕ))
      → SameLength buf (read hw t w addr buf).3
  unfolding read
  read-keeps t w addr none = tt
  read-keeps t w addr (some cells) = elim (Bool-cases (bad_args addr (some cells))) [
    | inl bad ↦ rw bad refl
    | inr good ↦
        let e = receive hw t w addr cells in
        rw good (
          omega (
            arith,
            (receive-IsReceived hw t w addr cells).counted,
            length-append e.left.filled e.left.cells,
          ))
  ]

  then_read-keeps :
      (r : I2cResult) (t : Transport) (w : W) (addr : ℕ) (buf : Option (List ℕ))
      → SameLength buf (then_read hw r t w addr buf).3
  unfolding then_read
  then_read-keeps ok t w addr buf = read-keeps t w addr buf
  then_read-keeps _ t w addr buf = SameLength-refl buf

  write_read-keeps :
      (t : Transport) (w : W) (addr : ℕ) (wbuf rbuf : Option (List ℕ))
      → SameLength rbuf (write_read hw t w addr wbuf rbuf).3
  unfolding write_read
  write_read-keeps t w addr wbuf rbuf =
      let (r, t', w') = write hw t w addr wbuf in then_read-keeps r t' w' addr rbuf

  then_read-accepts :
      (r : I2cResult) (t : Transport) (w : W) (addr : ℕ) (buf : Option (List ℕ))
      → r ≢ bad_arg
      → bad_args addr buf ≡ false
      → (then_read hw r t w addr buf).0 ≢ bad_arg
  unfolding then_read
  then_read-accepts ok t w addr buf ne good = (accept_args hw t w addr buf good).1
  then_read-accepts _ t w addr buf ne good = ne

  write_read-accepts :
      (t : Transport) (w : W) (addr : ℕ) (wbuf rbuf : Option (List ℕ))
      → bad_args addr wbuf ≡ false
      → bad_args addr rbuf ≡ false
      → (write_read hw t w addr wbuf rbuf).0 ≢ bad_arg
  unfolding write_read
  write_read-accepts t w addr wbuf rbuf h k =
      let (r, t', w') = write hw t w addr wbuf in
      then_read-accepts r t' w' addr rbuf (accept_args hw t w addr wbuf h).0 k

  then_read-unread :
      (r : I2cResult) (t : Transport) (w : W) (addr : ℕ) (buf : Option (List ℕ))
      → bad_args addr buf ≡ true
      → ((then_read hw r t w addr buf).0 ≢ ok) × ((then_read hw r t w addr buf).3 ≡ buf)
  unfolding then_read
  then_read-unread ok t w addr buf bad =
      rw ((reject_args hw t w addr buf none bad).1) ((λ x. cc), refl)
  then_read-unread bad_arg t w addr buf bad = ((λ x. cc), refl)
  then_read-unread timeout t w addr buf bad = ((λ x. cc), refl)
  then_read-unread nack t w addr buf bad = ((λ x. cc), refl)
  then_read-unread clock_timeout t w addr buf bad = ((λ x. cc), refl)

  write_read-unread :
      (t : Transport) (w : W) (addr : ℕ) (wbuf rbuf : Option (List ℕ))
      → bad_args addr rbuf ≡ true
      → ((write_read hw t w addr wbuf rbuf).0 ≢ ok) × ((write_read hw t w addr wbuf rbuf).3 ≡ rbuf)
  unfolding write_read
  write_read-unread t w addr wbuf rbuf h =
      let (r, t', w') = write hw t w addr wbuf in then_read-unread r t' w' addr rbuf h

  -- The polling transport keeps the promise of the interface, whatever the controller and the slave
  -- do.
  pub polling-IsTransport : IsTransport polling
  unfolding polling
  polling-IsTransport = record {
    write_rejects = λ (t, w) addr buf h.
        ap (λ (p : I2cResult × Transport × W). (p.0, (p.1, p.2)))
          (reject_args hw t w addr buf none h).0;
    write_accepts = λ (t, w) addr buf h. (accept_args hw t w addr buf h).0;
    read_rejects = λ (t, w) addr buf h.
        ap (λ (p : I2cResult × Transport × W × Option (List ℕ)). (p.0, (p.1, p.2), p.3))
          (reject_args hw t w addr buf none h).1;
    read_accepts = λ (t, w) addr buf h. (accept_args hw t w addr buf h).1;
    write_read_rejects = λ (t, w) addr wbuf rbuf h.
        ap (λ (p : I2cResult × Transport × W × Option (List ℕ)). (p.0, (p.1, p.2), p.3))
          (reject_args hw t w addr wbuf rbuf h).2;
    write_read_unread = λ (t, w) addr wbuf rbuf h. write_read-unread t w addr wbuf rbuf h;
    write_read_accepts = λ (t, w) addr wbuf rbuf h k. write_read-accepts t w addr wbuf rbuf h k;
    write_read_keeps = λ (t, w) addr wbuf rbuf. write_read-keeps t w addr wbuf rbuf;
  }
