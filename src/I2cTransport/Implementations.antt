-- ===== src/I2cTransport/Implementations.antt =====
-- The three implementations of the transport interface.
use rpi3b.Base.{ℕ, List}
use rpi3b.I2cBus.{Slave}
use rpi3b.I2cDev.{Msg, Answer, dev}
use rpi3b.I2cDev.Transfer.{dev-IsTransport}
use rpi3b.I2cIrq.{Line}
use rpi3b.I2cTransport.{IsTransport}
use rpi3b.I2cTransport.Polling.{polling, polling-IsTransport}
use rpi3b.I2cTransport.Waiting.{waiting, waiting-IsTransport}

-- Each of the three transports keeps the promise of the interface: `write` and `read`
-- with a bad argument, and `write_read` with a bad one for its write, give `bad_arg` with nothing done
-- and no buffer changed; `write_read` with a bad buffer to read into does not give `ok` and leaves
-- that buffer as it was; a call with good arguments does not give `bad_arg`; and the buffer of
-- `write_read` keeps its length. The polling one does so whatever the controller and the slave do,
-- the interrupt-driven one also however often the interrupt arrives in each wait, and the one over /dev/i2c whatever
-- the kernel answers.
pub all-IsTransport :
    {W K : Type 0} (hw : Slave W) (line : Line W) (rdwr : K → ℕ → List Msg → Answer × K)
    → IsTransport (polling hw) × IsTransport (waiting hw line) × IsTransport (dev rdwr)
all-IsTransport hw line rdwr =
    (polling-IsTransport hw, waiting-IsTransport hw line, dev-IsTransport rdwr)
