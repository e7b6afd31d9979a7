-- ===== src/Tests/GpioRuns.antt =====
-- Runs of the GPIO driver.
use rpi3b.Base.{ℕ, ◌≡◌, refl, false, some, arith}
use rpi3b.Word.{bit_at}
use rpi3b.Word.Field.{insert_field}
use rpi3b.Gpio.Registers.{alternate_function0}
use rpi3b.Gpio.{read, write, set_gpedsn}
use rpi3b.Gpio.Function.{read-write}
use rpi3b.Gpio.Pins.{
  rising, set_of, get_of, get_of-set_of, last_store, write_one_to_clear, set_gpedsn_clears_bank,
}
use rpi3b.Tests.Data.{patterned, patterned-IsWords}

read-write_example :
    (read (write patterned 23 alternate_function0) 24 ≡ read patterned 24)
    × ((write patterned 23 alternate_function0).value 2 ≡ insert_field 9 3 4 0x5a5a5a5a)
read-write_example = read-write patterned 23 24 2 alternate_function0 (omega arith) (omega arith)

get_of-set_of_example : get_of rising (set_of rising patterned 40) 40 ≡ 1
get_of-set_of_example =
    get_of-set_of rising rising patterned 40 40 refl refl (omega arith) (omega arith)

set_gpedsn_clears_bank_example :
    (v : ℕ) × (last_store (set_gpedsn patterned 40) ≡ some (17, v))
    × (bit_at (write_one_to_clear 0x5a5a5a5a v) 3 ≡ false)
set_gpedsn_clears_bank_example =
    set_gpedsn_clears_bank patterned 40 3 (omega arith) (omega arith) patterned-IsWords
