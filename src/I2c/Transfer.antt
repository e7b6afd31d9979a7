-- ===== src/I2c/Transfer.antt =====
-- The registers that `I2C` sets whole: slave address, data length, divider, FIFO and status.
use rpi3b.Base.{ℕ, ◌%◌, ◌^◌, ◌<◌, ◌≡◌, arith, if◌then◌else◌, ◌==◌, bit_and}
use rpi3b.Word.{◌<<◌}
use rpi3b.Word.Field.{bit_and_byte, bit_and_seven_bits, bit_and_half_word}
use rpi3b.Word.Single.{bit_and_one, bit_at-one_<<}
use rpi3b.Mmio.{Mmio}
use rpi3b.I2c.Registers.{Status}
use rpi3b.I2c.{
  slave_address, get_slave_address, data_length, get_data_length, clock_divider, get_clock_divider,
  write_byte, read_byte, clr_status, get_status, status_shift,
}

shift-lt : (f : Status) → status_shift f < 32
shift-lt f = ground arith

-- Each of these registers reads back what was set, cut to its width: 7 bits of the address, 16 of
-- the length and of the divider, 8 of a byte; and `clr_status` puts a single one, at the position
-- of its field, into the status register.
pub get-set_registers :
    (m : Mmio) (v : ℕ) (f f' : Status)
    → (get_slave_address (slave_address m v) ≡ v % 2 ^ 7)
      × (get_data_length (data_length m v) ≡ v % 2 ^ 16)
      × (get_clock_divider (clock_divider m v) ≡ v % 2 ^ 16)
      × (read_byte (write_byte m v) ≡ v % 2 ^ 8)
      × (get_status (clr_status m f) f' ≡ (if status_shift f == status_shift f' then 1 else 0))
unfolding slave_address get_slave_address data_length get_data_length clock_divider
    get_clock_divider write_byte read_byte clr_status get_status
get-set_registers m v f f' = (
  omega (arith, bit_and_seven_bits v, bit_and_seven_bits (bit_and v 0x7f)),
  omega (arith, bit_and_half_word v, bit_and_half_word (bit_and v 0xffff)),
  omega (arith, bit_and_half_word v, bit_and_half_word (bit_and v 0xffff)),
  omega (arith, bit_and_byte v, bit_and_byte (bit_and v 0xff)),
  ground (
    arith,
    bit_and_one (1 << status_shift f) (status_shift f'),
    bit_at-one_<< (status_shift f) (status_shift f') (shift-lt f),
  ),
)
