-- ===== src/I2cIrq/Calls.antt =====
-- The calls of src/src/i2c/i2c_irq.cpp: those that block, and those that return at once.
use rpi3b.Base.{
  arith, ℕ, zero, suc, ◌≡◌, refl, Bool, true, false, ◌||◌, if◌then◌else◌, Option, none, some, List,
  [],
}
use rpi3b.I2cBus.{I2cResult, ok, bad_arg, timeout, Slave, bad_args}
use rpi3b.I2cIrq.{Controller, Line, abort_transfer, interrupts, wait_loop, start}
use rpi3b.I2cIrq.Async.{write_async, read_async}

-- How `wait_complete` ends: the transfer is finished, with its result, or it was aborted.
pub data Waited (P : Controller → Type 0) (r : I2cResult) (c : Controller) : Type 0 where
  in_time : P c → c.xfer.finished ≡ true → r ≡ c.xfer.result → Waited P r c
  expired : (c' : Controller) → P c' → c ≡ abort_transfer c' → r ≡ timeout → Waited P r c

module _ {W : Type 0} (hw : Slave W) (line : Line W) (P : Controller → Type 0)
    (keep : (n : ℕ) (c : Controller) (w : W) → P c → P (interrupts hw n c w).0) where
  wait_turn :
      (b : Bool) (waits : ℕ) (c : Controller) (w : W)
      → c.xfer.finished ≡ b
      → P c
      → ((c' : Controller) (w' : W)
          → P c'
          → let e = wait_loop hw line waits c' w' in Waited P e.0 e.1)
      → let e : I2cResult × Controller × W = elim b [
        | true ↦ (c.xfer.result, c, w)
        | false ↦
            let (w', n) = line w in
            let (c', w'') = interrupts hw n c w' in wait_loop hw line waits c' w''
      ] in
        Waited P e.0 e.1
  wait_turn true waits c w e h ih = in_time h e refl
  wait_turn false waits c w e h ih =
      let (w', n) = line w in
      let served = interrupts hw n c w' in ih served.0 served.1 (keep n c w' h)

  pub wait_loop-Waited :
      (waits : ℕ) (c : Controller) (w : W)
      → P c
      → let e = wait_loop hw line waits c w in Waited P e.0 e.1
  unfolding wait_loop
  wait_loop-Waited zero c w h = expired c h refl refl
  wait_loop-Waited (suc waits) c w h =
      wait_turn c.xfer.finished waits c w refl h λ c' w' h'. wait_loop-Waited waits c' w' h'

busy_or : (b x : Bool) → x ≡ true → (b || x) ≡ true
busy_or b x e = ground arith

async-busy :
    (c : Controller) (addr user : ℕ) (buf : Option (List ℕ)) (cb : Option ℕ)
    → c.xfer.active ≡ true
    → (write_async c addr buf cb user ≡ (bad_arg, c))
      × (read_async c addr buf cb user ≡ (bad_arg, c))
unfolding write_async read_async
async-busy c addr user none cb e = (refl, refl)
async-busy c addr user (some bytes) cb e =
    simp (busy_or (bad_args addr (some bytes)) c.xfer.active e) (refl, refl)

accepted :
    (b : Bool) (c c' : Controller)
    → c'.xfer.active ≡ true
    → let e : I2cResult × Controller = if b then (bad_arg, c) else (ok, c') in
      e.0 ≡ ok → e.1.xfer.active ≡ true
accepted true c c' a e = absurd cc
accepted false c c' a e = a

async-active :
    (c : Controller) (addr user : ℕ) (buf : Option (List ℕ)) (cb : Option ℕ)
    → (write_async c addr buf cb user).0 ≡ ok
    → (write_async c addr buf cb user).1.xfer.active ≡ true
unfolding write_async start
async-active c addr user none cb e = absurd cc
async-active c addr user (some bytes) cb e =
    accepted (bad_args addr (some bytes) || c.xfer.active) c (start c addr bytes [] false cb user)
      refl e

-- One transfer at a time: a call of `write_async` that is accepted makes every further one of it or
-- of `read_async`, whatever its arguments, give `bad_arg` and change nothing.
pub async_exclusive :
    (c : Controller) (addr addr' user user' : ℕ) (buf buf' : Option (List ℕ)) (cb cb' : Option ℕ)
    → (write_async c addr buf cb user).0 ≡ ok
    → let c' = (write_async c addr buf cb user).1 in
      (write_async c' addr' buf' cb' user' ≡ (bad_arg, c'))
      × (read_async c' addr' buf' cb' user' ≡ (bad_arg, c'))
async_exclusive c addr addr' user user' buf buf' cb cb' e =
    async-busy (write_async c addr buf cb user).1 addr' user' buf' cb'
      (async-active c addr user buf cb e)
