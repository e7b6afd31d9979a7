-- ===== src/Devices/Apart.antt =====
-- The registers of different devices.
use rpi3b.Base.{ℕ, ◌<◌, ◌≡◌, arith}
use rpi3b.Devices.{Device, device_words, bcm_periph_base, register_address}

-- No two registers share an address: at the default bases, the addresses of two registers, of one
-- block or of two, are equal only where it is the same register of the same block.
pub register_address-apart :
    (d d' : Device) (i j : ℕ)
    → i < device_words d
    → j < device_words d'
    → register_address bcm_periph_base d i ≡ register_address bcm_periph_base d' j
    → (d ≡ d') × (i ≡ j)
unfolding register_address
register_address-apart d d' i j lt lt' e = ground arith
