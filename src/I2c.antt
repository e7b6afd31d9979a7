-- ===== src/I2c.antt =====
-- `class I2C` of src/inc/i2c.hpp, with its methods from src/src/i2c/i2c.cpp. A method takes the
-- register block of the BSC controller and returns the new one; getters of a setter's name are
-- written with `get_`.
pub mod Registers
pub mod Fields
pub mod Transfer
use rpi3b.Base.{ℕ, bit_and}
use rpi3b.Word.{◌<<◌, ◌>>◌}
use rpi3b.Mmio.{Mmio, load, store}
use rpi3b.Mmio.Fields.{Field, set_field, clr_field, get_field}
use rpi3b.I2c.Registers.{
  Register, index, Control, Status, read, clear, st, intd, intt, intr, i2cen, c_all, ta, done, txw,
  rxr, txd, rxd, txe, rxf, err, clkt_to, s_all,
}

-- Bit position and width of each field of the control register.
abbrev pub control_field : Control → Field
control_field read = record { shift = 0; width = 1 }
control_field clear = record { shift = 4; width = 2 }
control_field st = record { shift = 7; width = 1 }
control_field intd = record { shift = 8; width = 1 }
control_field intt = record { shift = 9; width = 1 }
control_field intr = record { shift = 10; width = 1 }
control_field i2cen = record { shift = 15; width = 1 }
control_field c_all = record { shift = 0; width = 32 }

abbrev pub status_shift : Status → ℕ
status_shift ta = 0
status_shift done = 1
status_shift txw = 2
status_shift rxr = 3
status_shift txd = 4
status_shift rxd = 5
status_shift txe = 6
status_shift rxf = 7
status_shift err = 8
status_shift clkt_to = 9
status_shift s_all = 0

unfoldable pub set_control : Mmio → Control → ℕ → Mmio
set_control m f v = set_field m (index Register.c) (control_field f) v

unfoldable pub clr_control : Mmio → Control → Mmio
clr_control m f = clr_field m (index Register.c) (control_field f)

unfoldable pub get_control : Mmio → Control → ℕ
get_control m f = get_field m (index Register.c) (control_field f)

unfoldable pub clr_status : Mmio → Status → Mmio
unfolding store
clr_status m f = store m (index Register.s) (1 << status_shift f)

unfoldable pub get_status : Mmio → Status → ℕ
unfolding load
get_status m f = bit_and (load m (index Register.s) >> status_shift f) 1

unfoldable pub enable : Mmio → Mmio
enable m = set_control m i2cen 1

unfoldable pub disable : Mmio → Mmio
disable m = clr_control m i2cen

unfoldable pub slave_address : Mmio → ℕ → Mmio
unfolding store
slave_address m addr = store m (index Register.a) (bit_and addr 0x7f)

unfoldable pub get_slave_address : Mmio → ℕ
unfolding load
get_slave_address m = bit_and (load m (index Register.a)) 0x7f

unfoldable pub data_length : Mmio → ℕ → Mmio
unfolding store
data_length m len = store m (index Register.dlen) (bit_and len 0xffff)

unfoldable pub get_data_length : Mmio → ℕ
unfolding load
get_data_length m = bit_and (load m (index Register.dlen)) 0xffff

unfoldable pub clock_divider : Mmio → ℕ → Mmio
unfolding store
clock_divider m divider = store m (index Register.div) (bit_and divider 0xffff)

unfoldable pub get_clock_divider : Mmio → ℕ
unfolding load
get_clock_divider m = bit_and (load m (index Register.div)) 0xffff

unfoldable pub clear_fifo : Mmio → Mmio
clear_fifo m = set_control m clear 0b01

unfoldable pub start_read : Mmio → Mmio
unfolding enable
start_read m = set_control (set_control (enable m) read 1) st 1

unfoldable pub start_write : Mmio → Mmio
unfolding enable
start_write m = set_control (set_control (enable m) read 0) st 1

unfoldable pub write_byte : Mmio → ℕ → Mmio
unfolding store
write_byte m byte = store m (index Register.fifo) (bit_and byte 0xff)

unfoldable pub read_byte : Mmio → ℕ
unfolding load
read_byte m = bit_and (load m (index Register.fifo)) 0xff
