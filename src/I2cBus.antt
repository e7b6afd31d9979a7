-- ===== src/I2cBus.antt =====
-- The polling transport of src/inc/i2c_bus.hpp and src/src/i2c/i2c_bus.cpp.
-- A buffer is the list of its cells, `none` for a null pointer; `buf + i` is what is left of it.
pub mod Loop
pub mod Write
pub mod Serve
pub mod Supply
pub mod Calls
pub mod Read
use rpi3b.Base.{
  ℕ, zero, suc, Bool, ◌||◌, ltb, ◌==◌, if◌then◌else◌, bit_and, Option, none, some, List, [], ◌∷◌,
  ◌++◌, length, drop,
}
use rpi3b.Word.{◌<<◌}
use rpi3b.Word.Single.{is_set}
use rpi3b.Mmio.{Mmio, load}
use rpi3b.Gpio
use rpi3b.Gpio.Registers.{alternate_function0}
use rpi3b.I2c.Registers.{Register, index, done, err, clkt_to}
use rpi3b.I2c.{
  clear_fifo, clr_status, slave_address, data_length, clock_divider, enable, start_read,
  start_write, write_byte, read_byte,
}

pub data I2cResult : Type 0 where
  ok bad_arg timeout nack clock_timeout : I2cResult

-- The bits of the status register: S_DONE, S_TXD, S_RXD, S_ERR and S_CLKT.
abbrev pub s_done : ℕ
s_done = 1

abbrev pub s_txd : ℕ
s_txd = 4

abbrev pub s_rxd : ℕ
s_rxd = 5

abbrev pub s_err : ℕ
s_err = 8

abbrev pub s_clkt : ℕ
s_clkt = 9

abbrev pub addr_max : ℕ
addr_max = 0x7f

-- The fields of `Bcm2837I2cTransport`.
pub record Transport : Type 0 where
  pub i2c : Mmio
  pub gpio : Mmio
  pub divider : ℕ
  pub max_spins : ℕ

unfoldable pub bus_init : Transport → Transport
bus_init t =
    let g = Gpio.write t.gpio 2 alternate_function0 in
    let g' = Gpio.write g 3 alternate_function0 in
    record t { gpio = g'; i2c = enable (clock_divider t.i2c t.divider) }

unfoldable pub prime : Mmio → ℕ → ℕ → Mmio
prime m addr len =
    let m₁ = clr_status (clr_status (clr_status (clear_fifo m) done) err) clkt_to in
    data_length (slave_address m₁ addr) len

unfoldable pub classify : ℕ → I2cResult
classify status =
    if is_set status s_err then nack else if is_set status s_clkt then clock_timeout else ok

-- `buf == nullptr || len == 0 || addr > ADDR_MAX`
abbrev pub bad_args : ℕ → Option (List ℕ) → Bool
bad_args addr none = Bool.true
bad_args addr (some buf) = length buf == 0 || ltb addr_max addr

-- What the controller and the slave do between two polls, which is not code of the driver: from
-- the registers and the stores made so far, and from their own state, the words that the
-- registers then hold.
abbrev pub Slave : Type 0 → Type 0
Slave W = W → Mmio → W × (ℕ → ℕ)

-- The outcome of a pass through a polling loop: `return`, or the next pass with the registers and
-- the part of the caller's buffer that is then left.
pub data Pass (A : Type 0) : Type 0 where
  stop : I2cResult → Pass A
  again : Mmio → A → Pass A

-- A polling loop that came to an end.
pub record Ended (W A : Type 0) : Type 0 where
  pub result : I2cResult
  pub regs : Mmio
  pub world : W
  pub left : A

-- `for (spin = 0; spin < m_max_spins; ++spin)` with `poll_status()` at the head of its body. The
-- first argument is the number of spins left.
unfoldable pub poll_loop :
    {W A : Type 0} → (Mmio → A → Pass A) → Slave W → ℕ → Mmio → W → A → Ended W A
poll_loop pass hw zero m w a = record { result = timeout; regs = m; world = w; left = a }
poll_loop pass hw (suc spins) m w a =
    let (w', v) = hw w m in
    let m' = record m { value = v } in
    elim (pass m' a) [
      | stop r ↦ record { result = r; regs = m'; world = w'; left = a }
      | again m'' a' ↦ poll_loop pass hw spins m'' w' a'
    ]

-- The body of the loop of `write` behind the two error checks; `rest` is `buf[i..len)`.
unfoldable pub feed : Mmio → ℕ → List ℕ → Pass (List ℕ)
unfolding classify
feed m s [] = if is_set s s_done then stop (classify s) else again m []
feed m s (b ∷ bs) =
    if is_set s s_txd
    then again (write_byte m b) bs
    else if is_set s s_done
    then stop (classify s)
    else again m (b ∷ bs)

unfoldable pub write_pass : Mmio → List ℕ → Pass (List ℕ)
unfolding load feed
write_pass m rest =
    let s = load m (index Register.s) in
    if is_set s s_err
    then stop nack
    else if is_set s s_clkt
    then stop clock_timeout
    else feed m s rest

-- The buffer of a read: the cells that were filled, and those from the index on.
pub record Filling : Type 0 where
  pub filled : List ℕ
  pub cells : List ℕ

-- The body of the loop of `read` behind the two error checks.
unfoldable pub drain : Mmio → ℕ → List ℕ → List ℕ → Pass Filling
unfolding classify
drain m s got [] =
    if is_set s s_done then stop (classify s) else again m (record { filled = got; cells = [] })
drain m s got (c ∷ cs) =
    if is_set s s_rxd
    then again m (record { filled = got ++ bit_and (read_byte m) 0xff ∷ []; cells = cs })
    else if is_set s s_done
    then stop timeout
    else again m (record { filled = got; cells = c ∷ cs })

unfoldable pub read_pass : Mmio → Filling → Pass Filling
unfolding load drain
read_pass m f =
    let s = load m (index Register.s) in
    if is_set s s_err
    then stop nack
    else if is_set s s_clkt
    then stop clock_timeout
    else drain m s f.filled f.cells

module _ {W : Type 0} (hw : Slave W) where
  -- The part of `write` behind the check of the arguments.
  unfoldable pub transmit : Transport → W → ℕ → List ℕ → Ended W (List ℕ)
  transmit t w addr bytes =
      poll_loop write_pass hw t.max_spins (start_write (prime t.i2c addr (length bytes))) w bytes

  unfoldable pub receive : Transport → W → ℕ → List ℕ → Ended W Filling
  receive t w addr cells =
      poll_loop read_pass hw t.max_spins (start_read (prime t.i2c addr (length cells))) w
        (record { filled = []; cells = cells })

  unfoldable pub write : Transport → W → ℕ → Option (List ℕ) → I2cResult × Transport × W
  unfolding transmit
  write t w addr none = (bad_arg, t, w)
  write t w addr (some bytes) =
      if bad_args addr (some bytes)
      then (bad_arg, t, w)
      else (let e = transmit t w addr bytes in (e.result, record t { i2c = e.regs }, e.world))

  -- The last component is the caller's buffer afterwards.
  unfoldable pub read :
      Transport → W → ℕ → Option (List ℕ) → I2cResult × Transport × W × Option (List ℕ)
  unfolding receive
  read t w addr none = (bad_arg, t, w, none)
  read t w addr (some cells) =
      if bad_args addr (some cells)
      then (bad_arg, t, w, some cells)
      else (let e = receive t w addr cells in
          (e.result, record t { i2c = e.regs }, e.world, some (e.left.filled ++ e.left.cells)))

  -- The second half of `write_read`, after a write that gave the first argument.
  unfoldable pub then_read :
      I2cResult → Transport → W → ℕ → Option (List ℕ) → I2cResult × Transport × W × Option (List ℕ)
  unfolding read
  then_read ok t w addr rbuf = read t w addr rbuf
  then_read failed t w addr rbuf = (failed, t, w, rbuf)

  -- BSC1 has no repeated START: a write, and if it went well a read.
  unfoldable pub write_read :
      Transport
      → W
      → ℕ
      → Option (List ℕ)
      → Option (List ℕ)
      → I2cResult × Transport × W × Option (List ℕ)
  unfolding write then_read
  write_read t w addr wbuf rbuf =
      let (r, t', w') = write t w addr wbuf in then_read r t' w' addr rbuf
