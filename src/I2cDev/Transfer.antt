-- ===== src/I2cDev/Transfer.antt =====
-- The transfers over i2c-dev: the promise of the interface, and the lengths that the kernel sees.
use rpi3b.Base.{
  ℕ, ◌≡◌, ◌≢◌, refl, Bool, true, false, ◌||◌, Option, none, some, List, [], ◌∷◌, ◌++◌, length, take,
  drop, arith, Bool-cases, inl, inr,
}
use rpi3b.I2cBus.{ok, bad_arg, bad_args}
use rpi3b.I2cTransport.{IsTransport, SameLength}
use rpi3b.I2cDev.{
  Msg, Answer, failed, transferred, enxio, eremoteio, other, write_msg, read_msg, xfer_result,
  buffer_after, Descriptor, xfer, write, read, write_read, dev,
}

length-placed :
    (cells got : List ℕ)
    → length (take (length cells) got ++ drop (length got) cells) ≡ length cells
length-placed [] [] = refl
length-placed [] (g ∷ got) = refl
length-placed (c ∷ cells) [] = refl
length-placed (c ∷ cells) (g ∷ got) = omega (arith, length-placed cells got)

xfer_result-ne-bad_arg : (a : Answer) → xfer_result a ≢ bad_arg
xfer_result-ne-bad_arg (transferred got) = λ e. cc
xfer_result-ne-bad_arg (failed enxio) = λ e. cc
xfer_result-ne-bad_arg (failed eremoteio) = λ e. cc
xfer_result-ne-bad_arg (failed (other n)) = λ e. cc

length-buffer_after : (a : Answer) (cells : List ℕ) → length cells ≡ length (buffer_after a cells)
length-buffer_after (failed e) cells = refl
length-buffer_after (transferred got) cells = omega (arith, length-placed cells got)

module _ {K : Type 0} (rdwr : K → ℕ → List Msg → Answer × K) where
  xfer-ne-bad_arg :
      (fd : Descriptor) (k : K) (msgs : List Msg) (cells : List ℕ)
      → (xfer rdwr fd k msgs cells).0 ≢ bad_arg
  unfolding xfer
  xfer-ne-bad_arg none k msgs cells = λ e. cc
  xfer-ne-bad_arg (some fd) k msgs cells = xfer_result-ne-bad_arg (rdwr k fd msgs).0

  xfer-length :
      (fd : Descriptor) (k : K) (msgs : List Msg) (cells : List ℕ)
      → length cells ≡ length (xfer rdwr fd k msgs cells).2
  unfolding xfer
  xfer-length none k msgs cells = refl
  xfer-length (some fd) k msgs cells = length-buffer_after (rdwr k fd msgs).0 cells

  -- A bad argument, of the read too, is answered by `bad_arg` with no call of the kernel and the
  -- buffer as it was.
  pub write_read-rejects :
      (s : Descriptor × K) (addr : ℕ) (wbuf rbuf : Option (List ℕ))
      → (bad_args addr wbuf || bad_args addr rbuf) ≡ true
      → write_read rdwr s addr wbuf rbuf ≡ (bad_arg, s, rbuf)
  unfolding write_read
  write_read-rejects s addr none rbuf h = refl
  write_read-rejects s addr (some bytes) none h = refl
  write_read-rejects s addr (some bytes) (some cells) h = rw h refl

  write-rejects :
      (s : Descriptor × K) (addr : ℕ) (buf : Option (List ℕ))
      → bad_args addr buf ≡ true
      → write rdwr s addr buf ≡ (bad_arg, s)
  unfolding write
  write-rejects s addr none h = refl
  write-rejects s addr (some bytes) h = rw h refl

  write-accepts :
      (s : Descriptor × K) (addr : ℕ) (buf : Option (List ℕ))
      → bad_args addr buf ≡ false
      → (write rdwr s addr buf).0 ≢ bad_arg
  unfolding write
  write-accepts s addr none h = absurd (cc)
  write-accepts s addr (some bytes) h =
      rw h (xfer-ne-bad_arg s.0 s.1 (write_msg addr bytes ∷ []) [])

  read-rejects :
      (s : Descriptor × K) (addr : ℕ) (buf : Option (List ℕ))
      → bad_args addr buf ≡ true
      → read rdwr s addr buf ≡ (bad_arg, s, buf)
  unfolding read
  read-rejects s addr none h = refl
  read-rejects s addr (some cells) h = rw h refl

  read-accepts :
      (s : Descriptor × K) (addr : ℕ) (buf : Option (List ℕ))
      → bad_args addr buf ≡ false
      → (read rdwr s addr buf).0 ≢ bad_arg
  unfolding read
  read-accepts s addr none h = absurd (cc)
  read-accepts s addr (some cells) h =
      rw h (xfer-ne-bad_arg s.0 s.1 (read_msg addr cells ∷ []) cells)

  write_read-accepts :
      (s : Descriptor × K) (addr : ℕ) (wbuf rbuf : Option (List ℕ))
      → bad_args addr wbuf ≡ false
      → bad_args addr rbuf ≡ false
      → (write_read rdwr s addr wbuf rbuf).0 ≢ bad_arg
  unfolding write_read
  write_read-accepts s addr none rbuf h k = absurd (cc)
  write_read-accepts s addr (some bytes) none h k = absurd (cc)
  write_read-accepts s addr (some bytes) (some cells) h k =
      rw (h, k) (xfer-ne-bad_arg s.0 s.1 (write_msg addr bytes ∷ read_msg addr cells ∷ []) cells)

  write_read-keeps :
      (s : Descriptor × K) (addr : ℕ) (wbuf rbuf : Option (List ℕ))
      → SameLength rbuf (write_read rdwr s addr wbuf rbuf).2
  unfolding write_read
  write_read-keeps s addr none none = tt
  write_read-keeps s addr none (some cells) = refl
  write_read-keeps s addr (some bytes) none = tt
  write_read-keeps s addr (some bytes) (some cells) =
      elim (Bool-cases (bad_args addr (some bytes) || bad_args addr (some cells))) [
        | inl bad ↦ rw bad refl
        | inr good ↦
            rw good (xfer-length s.0 s.1 (write_msg addr bytes ∷ read_msg addr cells ∷ []) cells)
      ]

  right-true : (a b : Bool) → b ≡ true → (a || b) ≡ true
  right-true a b h = ground arith

  write_read-unread :
      (s : Descriptor × K) (addr : ℕ) (wbuf rbuf : Option (List ℕ))
      → bad_args addr rbuf ≡ true
      → ((write_read rdwr s addr wbuf rbuf).0 ≢ ok) × ((write_read rdwr s addr wbuf rbuf).2 ≡ rbuf)
  write_read-unread s addr wbuf rbuf h =
      rw (write_read-rejects s addr wbuf rbuf (right-true (bad_args addr wbuf) _ h))
        ((λ x. cc), refl)

  left-true : (a b : Bool) → a ≡ true → (a || b) ≡ true
  left-true a b h = rw h refl

  -- The i2c-dev transport keeps the promise of the interface, whatever the kernel answers.
  pub dev-IsTransport : IsTransport (dev rdwr)
  unfolding dev
  dev-IsTransport = record {
    write_rejects = write-rejects;
    write_accepts = write-accepts;
    read_rejects = read-rejects;
    read_accepts = read-accepts;
    write_read_rejects = λ s addr wbuf rbuf h.
        write_read-rejects s addr wbuf rbuf (left-true _ (bad_args addr rbuf) h);
    write_read_unread = write_read-unread;
    write_read_accepts = write_read-accepts;
    write_read_keeps = write_read-keeps;
  }
