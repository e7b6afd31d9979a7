-- ===== src/I2cBus/Read.antt =====
-- `Bcm2837I2cTransport::read`: what it delivers, and what its result means.
use rpi3b.Base.{
  ℕ, ◌+◌, ◌<◌, ◌≡◌, refl, false, arith, List, [], ◌∷◌, ◌++◌, length, bit_and, if◌then◌else◌,
  length-append,
}
use rpi3b.Word.Single.{is_set}
use rpi3b.Word.Field.{bit_and_byte}
use rpi3b.Mmio.{Mmio}
use rpi3b.I2c.Registers.{Register, index}
use rpi3b.I2c.{start_read, read_byte}
use rpi3b.I2cBus.{
  I2cResult, ok, bad_arg, timeout, nack, clock_timeout, Slave, stop, again, s_done, s_err, s_clkt,
  s_rxd, Transport, prime, Filling, read_pass, receive, drain, classify,
}
use rpi3b.I2cBus.Loop.{Explains, Keeps, Keeps-if, classify_calm, poll_loop_inv}

abbrev pub AllBytes : List ℕ → Type 0
AllBytes [] = Unit
AllBytes (x ∷ xs) = (x < 256) × AllBytes xs

pub AllBytes-append : (xs : List ℕ) (b : ℕ) → AllBytes xs → b < 256 → AllBytes (xs ++ b ∷ [])
AllBytes-append [] b h lt = (lt, tt)
AllBytes-append (x ∷ xs) b h lt = (h.0, AllBytes-append xs b h.1 lt)

-- All cells were filled, where the result is `ok`.
abbrev pub Full : I2cResult → List ℕ → Type 0
Full ok cells = cells ≡ []
Full bad_arg cells = Unit
Full timeout cells = Unit
Full nack cells = Unit
Full clock_timeout cells = Unit

-- A read of `n` bytes that began with the stores `log` ended with `result`, the registers `m` and
-- the buffer `f`.
pub record IsReceived (n : ℕ) (log : List (ℕ × ℕ)) (result : I2cResult) (m : Mmio) (f : Filling)
    : Type 0 where
  pub counted : length f.filled + length f.cells ≡ n
  pub bytes : AllBytes f.filled
  pub no_stores : m.stores ≡ log
  pub full : Full result f.cells
  pub explained : Explains result (m.value (index Register.s))

-- Between two passes.
record IsReceiving (n : ℕ) (log : List (ℕ × ℕ)) (m : Mmio) (f : Filling) : Type 0 where
  counted : length f.filled + length f.cells ≡ n
  bytes : AllBytes f.filled
  no_stores : m.stores ≡ log

module _ (n : ℕ) (log : List (ℕ × ℕ)) where
  abbrev Receiving : Mmio → Filling → Type 0
  Receiving = IsReceiving n log

  abbrev Received : I2cResult → Mmio → Filling → Type 0
  Received = IsReceived n log

  finish :
      (m : Mmio) (f : Filling) (r : I2cResult)
      → IsReceiving n log m f
      → Full r f.cells
      → Explains r (m.value (index Register.s))
      → IsReceived n log r m f
  finish m f r h full e = record {
    counted = h.counted;
    bytes = h.bytes;
    no_stores = h.no_stores;
    full = full;
    explained = e;
  }

  fill :
      (m : Mmio) (got : List ℕ) (c : ℕ) (cs : List ℕ)
      → IsReceiving n log m (record { filled = got; cells = c ∷ cs })
      → IsReceiving n log m (record { filled = got ++ bit_and (read_byte m) 0xff ∷ []; cells = cs })
  unfolding read_byte
  fill m got c cs h = record {
    counted = omega (arith, h.counted, length-append got (bit_and (read_byte m) 0xff ∷ []));
    bytes =
        AllBytes-append got (bit_and (read_byte m) 0xff) h.bytes
          (omega (arith, bit_and_byte (read_byte m)));
    no_stores = h.no_stores;
  }

  drain-Keeps :
      (m : Mmio) (got cells : List ℕ)
      → is_set (m.value (index Register.s)) s_err ≡ false
      → is_set (m.value (index Register.s)) s_clkt ≡ false
      → IsReceiving n log m (record { filled = got; cells = cells })
      → Keeps Receiving Received m
          (record { filled = got; cells = cells })
          (drain m (m.value (index Register.s)) got cells)
  unfolding drain
  drain-Keeps m got [] e c h =
      let s = m.value 1 in
      let f : Filling = record { filled = got; cells = [] } in
      Keeps-if Receiving Received m f (is_set s s_done) (stop (classify s)) (again m f)
        (λ d. rw (classify_calm s e c) (finish m f ok h refl (d, e, c))) (λ _. h)
  drain-Keeps m got (x ∷ cs) e c h =
      let s = m.value 1 in
      let f : Filling = record { filled = got; cells = x ∷ cs } in
      let f' : Filling = record { filled = got ++ bit_and (read_byte m) 0xff ∷ []; cells = cs } in
      Keeps-if Receiving Received m f (is_set s s_rxd) (again m f')
        (if is_set s s_done then stop timeout else again m f) (λ _. fill m got x cs h)
        λ _.
          Keeps-if Receiving Received m f (is_set s s_done) (stop timeout) (again m f)
            (λ d. finish m f timeout h tt tt) (λ _. h)

  read_pass-Keeps :
      (m : Mmio) (f : Filling)
      → IsReceiving n log m f
      → Keeps Receiving Received m f (read_pass m f)
  unfolding read_pass
  read_pass-Keeps m f h =
      let s = m.value 1 in
      Keeps-if Receiving Received m f (is_set s s_err) (stop nack)
        (if is_set s s_clkt then stop clock_timeout else drain m s f.filled f.cells)
        (λ e. finish m f nack h tt e)
        λ e.
          Keeps-if Receiving Received m f (is_set s s_clkt) (stop clock_timeout)
            (drain m s f.filled f.cells) (λ c. finish m f clock_timeout h tt (e, c))
            (λ c. drain-Keeps m f.filled f.cells e c h)

module _ {W : Type 0} (hw : Slave W) (t : Transport) (w : W) (addr : ℕ) (cells : List ℕ) where
  -- Whatever the slave does: the loop of a read makes no store, and the cells that it filled and
  -- those that it left make up the buffer's length, each filled one a byte below 256. An `ok`
  -- means that every cell was filled and that the last status had DONE and no error; a `nack`,
  -- that it had ERR; a `clock_timeout`, that it had CLKT and no ERR.
  pub receive-IsReceived :
      let e = receive hw t w addr cells in
      IsReceived
        (length cells)
        (start_read (prime t.i2c addr (length cells))).stores
        e.result
        e.regs
        e.left
  unfolding receive
  receive-IsReceived =
      let log = (start_read (prime t.i2c addr (length cells))).stores in
      let n = length cells in
      poll_loop_inv read_pass hw (Receiving n log) (Received n log)
        (λ m v f h.
          read_pass-Keeps n log (record m { value = v }) f
            (record { counted = h.counted; bytes = h.bytes; no_stores = h.no_stores }))
        (λ m f h. finish n log m f timeout h tt tt) t.max_spins
        (start_read (prime t.i2c addr (length cells))) w (record { filled = []; cells = cells })
        (record { counted = omega arith; bytes = tt; no_stores = refl })
