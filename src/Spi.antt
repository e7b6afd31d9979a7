-- ===== src/Spi.antt =====
-- `class SPI` of src/inc/spi.hpp, with its methods from src/src/spi/spi.cpp.
pub mod Registers
pub mod Fields
pub mod Positions
use rpi3b.Base.{ℕ, Bool, bit_and, ◌==◌}
use rpi3b.Mmio.{Mmio, load, store}
use rpi3b.Mmio.Fields.{Field, set_field, clr_field, get_field}
use rpi3b.Spi.Registers.{
  Register, index, ControlStatus, cs_line, cpha, cpol, clear, cspol, ta, dmaen, intd, intr, adcs,
  ren, len, lmono, te_en, done, rxd, txd, rxr, rxf, cspol0, cspol1, cspol2, dma_len, len_long,
  cs_all,
}

-- Bit position and width of each field of the CS register.
abbrev pub cs_field : ControlStatus → Field
cs_field cs_line = record { shift = 0; width = 2 }
cs_field cpha = record { shift = 2; width = 1 }
cs_field cpol = record { shift = 3; width = 1 }
cs_field clear = record { shift = 4; width = 2 }
cs_field cspol = record { shift = 6; width = 1 }
cs_field ta = record { shift = 7; width = 1 }
cs_field dmaen = record { shift = 8; width = 1 }
cs_field intd = record { shift = 9; width = 1 }
cs_field intr = record { shift = 10; width = 1 }
cs_field adcs = record { shift = 11; width = 1 }
cs_field ren = record { shift = 12; width = 1 }
cs_field len = record { shift = 13; width = 1 }
cs_field lmono = record { shift = 14; width = 1 }
cs_field te_en = record { shift = 15; width = 1 }
cs_field done = record { shift = 16; width = 1 }
cs_field rxd = record { shift = 17; width = 1 }
cs_field txd = record { shift = 18; width = 1 }
cs_field rxr = record { shift = 19; width = 1 }
cs_field rxf = record { shift = 20; width = 1 }
cs_field cspol0 = record { shift = 21; width = 1 }
cs_field cspol1 = record { shift = 22; width = 1 }
cs_field cspol2 = record { shift = 23; width = 1 }
cs_field dma_len = record { shift = 24; width = 1 }
cs_field len_long = record { shift = 25; width = 1 }
cs_field cs_all = record { shift = 0; width = 32 }

unfoldable pub set_cs : Mmio → ControlStatus → ℕ → Mmio
set_cs m f v = set_field m (index Register.cs) (cs_field f) v

unfoldable pub clr_cs : Mmio → ControlStatus → Mmio
clr_cs m f = clr_field m (index Register.cs) (cs_field f)

unfoldable pub get_cs : Mmio → ControlStatus → ℕ
get_cs m f = get_field m (index Register.cs) (cs_field f)

unfoldable pub mode : Mmio → ℕ → ℕ → Mmio
mode m polarity phase = set_cs (set_cs m cpol polarity) cpha phase

unfoldable pub chip_select : Mmio → ℕ → Mmio
chip_select m ce = set_cs m cs_line ce

unfoldable pub get_chip_select : Mmio → ℕ
get_chip_select m = get_cs m cs_line

unfoldable pub clock_divider : Mmio → ℕ → Mmio
unfolding store
clock_divider m divider = store m (index Register.clk) (bit_and divider 0xffff)

unfoldable pub get_clock_divider : Mmio → ℕ
unfolding load
get_clock_divider m = bit_and (load m (index Register.clk)) 0xffff

unfoldable pub clear_fifo : Mmio → Mmio
clear_fifo m = set_cs m clear 0b11

unfoldable pub begin_transfer : Mmio → Mmio
begin_transfer m = set_cs m ta 1

unfoldable pub end_transfer : Mmio → Mmio
end_transfer m = clr_cs m ta

unfoldable pub write_byte : Mmio → ℕ → Mmio
unfolding store
write_byte m byte = store m (index Register.fifo) (bit_and byte 0xff)

unfoldable pub read_byte : Mmio → ℕ
unfolding load
read_byte m = bit_and (load m (index Register.fifo)) 0xff

unfoldable pub is_done : Mmio → Bool
is_done m = get_cs m done == 1

unfoldable pub can_write : Mmio → Bool
can_write m = get_cs m txd == 1

unfoldable pub can_read : Mmio → Bool
can_read m = get_cs m rxd == 1
