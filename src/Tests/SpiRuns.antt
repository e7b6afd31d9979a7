-- ===== src/Tests/SpiRuns.antt =====
-- Runs of the SPI driver.
use rpi3b.Base.{◌≡◌, refl}
use rpi3b.Spi.Registers.{cs_line}
use rpi3b.Spi.{set_cs, clr_cs, get_cs}
use rpi3b.Spi.Positions.{cs-bits}
use rpi3b.Tests.Data.{patterned}

cs-bits_example :
    (get_cs patterned cs_line ≡ 2)
    × (get_cs (set_cs patterned cs_line 5) cs_line ≡ 1)
    × (get_cs (clr_cs patterned cs_line) cs_line ≡ 0)
    × ((set_cs patterned cs_line 5).value 2 ≡ 0x5a5a5a5a)
    × ((clr_cs patterned cs_line).value 2 ≡ 0x5a5a5a5a)
cs-bits_example = cs-bits patterned cs_line cs_line 5 1 refl (λ e. cc)
