-- ===== src/Tests/TransportRuns.antt =====
-- Runs of the transport interface, of its two implementations and of its client.
use rpi3b.Base.{ℕ, ◌+◌, none, some, List, [], ◌∷◌}
use rpi3b.I2cBus.{Slave}
use rpi3b.I2cDev.{dev, Msg, Answer, transferred}
use rpi3b.I2cDev.Descriptors.{Call, opening}
use rpi3b.I2cTransport.{IsTransport}
use rpi3b.I2cTransport.Polling.{polling}
use rpi3b.I2cTransport.Waiting.{waiting}
use rpi3b.I2cTransport.Implementations.{all-IsTransport}
use rpi3b.Tests.IrqRuns.{each_wait}

-- A kernel that counts the calls and transfers two bytes.
abbrev kernel : ℕ → ℕ → List Msg → Answer × ℕ
kernel k fd msgs = (transferred (0x12 ∷ 0x34 ∷ []), k + 1)

abbrev cells : List ℕ
cells = 0 ∷ 0 ∷ []

abbrev sample : List ℕ
sample = 1 ∷ 2 ∷ []

-- A slave whose status is always DONE with room.
abbrev idle : Slave ℕ
idle w m = (w, λ i. 0x12)

abbrev calls : List Call
calls = opening (some 3) ∷ opening none ∷ opening (some 3) ∷ opening (some 4) ∷ []

all-IsTransport_example :
    IsTransport (polling idle) × IsTransport (waiting idle each_wait) × IsTransport (dev kernel)
all-IsTransport_example = all-IsTransport idle each_wait kernel
