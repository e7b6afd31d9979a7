-- ===== src/I2cIrq/Async.antt =====
-- `write_async` and `read_async` of src/src/i2c/i2c_irq.cpp.
use rpi3b.Base.{ℕ, true, false, ◌||◌, if◌then◌else◌, Option, none, some, List, []}
use rpi3b.I2cBus.{I2cResult, ok, bad_arg, bad_args}
use rpi3b.I2cIrq.{Controller, start}

unfoldable pub write_async :
    Controller → ℕ → Option (List ℕ) → Option ℕ → ℕ → I2cResult × Controller
unfolding start
write_async c addr none cb user_data = (bad_arg, c)
write_async c addr (some bytes) cb user_data =
    if bad_args addr (some bytes) || c.xfer.active
    then (bad_arg, c)
    else (ok, start c addr bytes [] false cb user_data)

unfoldable pub read_async : Controller → ℕ → Option (List ℕ) → Option ℕ → ℕ → I2cResult × Controller
unfolding start
read_async c addr none cb user_data = (bad_arg, c)
read_async c addr (some cells) cb user_data =
    if bad_args addr (some cells) || c.xfer.active
    then (bad_arg, c)
    else (ok, start c addr [] cells true cb user_data)
