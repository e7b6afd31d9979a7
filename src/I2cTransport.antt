-- ===== src/I2cTransport.antt =====
-- `class I2cTransport` of inc/i2c_bus.hpp: the interface that sensor drivers use, what it promises,
-- and the two register accesses that it builds on it. A null buffer is `none`.
pub mod Client
pub mod Polling
pub mod Waiting
pub mod Implementations
use rpi3b.Base.{
  ℕ, ◌<◌, ◌≡◌, ◌≢◌, refl, Bool, true, false, Option, none, some, List, [], ◌∷◌, length,
}
use rpi3b.I2cBus.{I2cResult, ok, bad_arg, bad_args}

-- The three virtual functions over the state of an implementation; a function that reads gives the
-- caller's buffer afterwards.
pub record I2cTransport (S : Type 0) : Type 0 where
  pub write : S → ℕ → Option (List ℕ) → I2cResult × S
  pub read : S → ℕ → Option (List ℕ) → I2cResult × S × Option (List ℕ)
  pub write_read : S → ℕ → Option (List ℕ) → Option (List ℕ) → I2cResult × S × Option (List ℕ)

abbrev pub SameLength : Option (List ℕ) → Option (List ℕ) → Type 0
SameLength none none = Unit {0}
SameLength (some a) (some b) = length a ≡ length b
SameLength none (some b) = ⊥
SameLength (some a) none = ⊥

pub SameLength-refl : (buf : Option (List ℕ)) → SameLength buf buf
SameLength-refl none = tt
SameLength-refl (some cells) = refl

-- A bad argument of `write` or `read`, or of the write in `write_read`, is answered by `bad_arg` with
-- nothing done; a bad buffer to read into in `write_read` is left as it was, and the result is not
-- `ok`; only a bad argument is answered by `bad_arg`; and a buffer keeps its length.
pub record IsTransport {S : Type 0} (t : I2cTransport S) : Type 0 where
  pub write_rejects :
      (s : S) (addr : ℕ) (buf : Option (List ℕ))
      → bad_args addr buf ≡ true
      → t.write s addr buf ≡ (bad_arg, s)
  pub write_accepts :
      (s : S) (addr : ℕ) (buf : Option (List ℕ))
      → bad_args addr buf ≡ false
      → (t.write s addr buf).0 ≢ bad_arg
  pub read_rejects :
      (s : S) (addr : ℕ) (buf : Option (List ℕ))
      → bad_args addr buf ≡ true
      → t.read s addr buf ≡ (bad_arg, s, buf)
  pub read_accepts :
      (s : S) (addr : ℕ) (buf : Option (List ℕ))
      → bad_args addr buf ≡ false
      → (t.read s addr buf).0 ≢ bad_arg
  pub write_read_rejects :
      (s : S) (addr : ℕ) (wbuf rbuf : Option (List ℕ))
      → bad_args addr wbuf ≡ true
      → t.write_read s addr wbuf rbuf ≡ (bad_arg, s, rbuf)
  pub write_read_unread :
      (s : S) (addr : ℕ) (wbuf rbuf : Option (List ℕ))
      → bad_args addr rbuf ≡ true
      → ((t.write_read s addr wbuf rbuf).0 ≢ ok) × ((t.write_read s addr wbuf rbuf).2 ≡ rbuf)
  pub write_read_accepts :
      (s : S) (addr : ℕ) (wbuf rbuf : Option (List ℕ))
      → bad_args addr wbuf ≡ false
      → bad_args addr rbuf ≡ false
      → (t.write_read s addr wbuf rbuf).0 ≢ bad_arg
  pub write_read_keeps :
      (s : S) (addr : ℕ) (wbuf rbuf : Option (List ℕ))
      → SameLength rbuf (t.write_read s addr wbuf rbuf).2

module _ {S : Type 0} (t : I2cTransport S) where
  -- `&reg, 1`: a buffer of one byte.
  unfoldable pub read_reg : S → ℕ → ℕ → Option (List ℕ) → I2cResult × S × Option (List ℕ)
  read_reg s addr reg buf = t.write_read s addr (some (reg ∷ [])) buf

  unfoldable pub write_reg : S → ℕ → ℕ → ℕ → I2cResult × S
  write_reg s addr reg value = t.write s addr (some (reg ∷ value ∷ []))
