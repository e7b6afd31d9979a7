-- ===== src/I2cDev.antt =====
-- `class I2cDevTransport` of inc/i2c_dev.hpp: transfers by the kernel's `ioctl(I2C_RDWR)`, which is
-- a parameter, on a descriptor of /dev/i2c-N.
pub mod Transfer
pub mod Descriptors
use rpi3b.Base.{
  ℕ, zero, suc, ◌%◌, ◌^◌, Bool, true, false, ◌||◌, Option, none, some, List, [], ◌∷◌, ◌++◌, length,
  take, drop, if◌then◌else◌,
}
use rpi3b.Base.Int.{ℤ, pos, negsuc}
use rpi3b.I2cBus.{I2cResult, ok, bad_arg, timeout, nack, bad_args}
use rpi3b.I2cTransport.{I2cTransport}

-- `errno`: the numbers that the code tells apart, and any other.
pub data Errno : Type 0 where
  enxio : Errno
  eremoteio : Errno
  other : ℕ → Errno

-- `struct i2c_msg`, with what its buffer holds.
pub record Msg : Type 0 where
  pub addr : ℕ
  pub reading : Bool
  pub len : ℕ
  pub buf : List ℕ

-- A failed call, or the bytes that the kernel has put into the buffer of the reading message.
pub data Answer : Type 0 where
  failed : Errno → Answer
  transferred : List ℕ → Answer

-- `static_cast<__u16>(len)`
abbrev pub u16 : ℕ → ℕ
u16 n = n % 2 ^ 16

abbrev pub write_msg : ℕ → List ℕ → Msg
write_msg addr bytes = record {
  addr = addr;
  reading = false;
  len = u16 (length bytes);
  buf = bytes;
}

abbrev pub read_msg : ℕ → List ℕ → Msg
read_msg addr cells = record { addr = addr; reading = true; len = u16 (length cells); buf = cells }

-- The result that `xfer` makes of the answer.
abbrev pub xfer_result : Answer → I2cResult
xfer_result (transferred got) = ok
xfer_result (failed enxio) = nack
xfer_result (failed eremoteio) = nack
xfer_result (failed (other n)) = timeout

-- The reader's buffer, with the bytes of the kernel from its begin on.
abbrev pub buffer_after : Answer → List ℕ → List ℕ
buffer_after (failed e) cells = cells
buffer_after (transferred got) cells = take (length cells) got ++ drop (length got) cells

-- The transport's own state is the descriptor, `none` for a negative one.
abbrev pub Descriptor : Type 0
Descriptor = Option ℕ

-- The descriptors that `::open` has given, and those that `::close` was called on.
pub record Files : Type 0 where
  pub fd : Descriptor
  pub opened : List ℕ
  pub closed : List ℕ

unfoldable pub close : Files → Files
close f = elim f.fd [
  | none ↦ f
  | some n ↦ record { fd = none; opened = f.opened; closed = f.closed ++ n ∷ [] }
]

-- `open`, with what `::open` answers, and the value returned.
unfoldable pub open_dev : Files → Descriptor → ℤ × Files
unfolding close
open_dev f none = (negsuc 0, record (close f) { fd = none })
open_dev f (some n) = (pos 0, record (close f) { fd = some n; opened = (close f).opened ++ n ∷ [] })

unfoldable pub is_open : Files → Bool
is_open f = elim f.fd [ none ↦ false | some n ↦ true ]

module _ {K : Type 0} (rdwr : K → ℕ → List Msg → Answer × K) where
  -- The check of the descriptor and `xfer`, with the reader's buffer.
  unfoldable pub xfer : Descriptor → K → List Msg → List ℕ → I2cResult × (Descriptor × K) × List ℕ
  xfer none k msgs cells = (timeout, (none, k), cells)
  xfer (some fd) k msgs cells =
      let (a, k') = rdwr k fd msgs in (xfer_result a, (some fd, k'), buffer_after a cells)

  unfoldable pub write : Descriptor × K → ℕ → Option (List ℕ) → I2cResult × (Descriptor × K)
  write s addr none = (bad_arg, s)
  write s addr (some bytes) =
      if bad_args addr (some bytes)
      then (bad_arg, s)
      else (let (r, s', left) = xfer s.0 s.1 (write_msg addr bytes ∷ []) [] in (r, s'))

  unfoldable pub read :
      Descriptor × K → ℕ → Option (List ℕ) → I2cResult × (Descriptor × K) × Option (List ℕ)
  read s addr none = (bad_arg, s, none)
  read s addr (some cells) =
      if bad_args addr (some cells)
      then (bad_arg, s, some cells)
      else (let (r, s', out) = xfer s.0 s.1 (read_msg addr cells ∷ []) cells in (r, s', some out))

  unfoldable pub write_read :
      Descriptor × K
      → ℕ
      → Option (List ℕ)
      → Option (List ℕ)
      → I2cResult × (Descriptor × K) × Option (List ℕ)
  write_read s addr none rbuf = (bad_arg, s, rbuf)
  write_read s addr (some bytes) none = (bad_arg, s, none)
  write_read s addr (some bytes) (some cells) =
      if bad_args addr (some bytes) || bad_args addr (some cells)
      then (bad_arg, s, some cells)
      else (let (r, s', out) =
            xfer s.0 s.1 (write_msg addr bytes ∷ read_msg addr cells ∷ []) cells in
          (r, s', some out))

  unfoldable pub dev : I2cTransport (Descriptor × K)
  dev = record { write = write; read = read; write_read = write_read }
