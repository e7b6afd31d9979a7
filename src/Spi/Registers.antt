-- ===== src/Spi/Registers.antt =====
-- The enumerations of `SPIRegistersAddress` in src/inc/memory_map.hpp.
use rpi3b.Base.{ℕ}

pub data Register : Type 0 where
  cs fifo clk dlen ltoh dc : Register

abbrev pub index : Register → ℕ
index Register.cs = 0
index Register.fifo = 1
index Register.clk = 2
index Register.dlen = 3
index Register.ltoh = 4
index Register.dc = 5

pub data ControlStatus : Type 0 where
  cs_line cpha cpol clear cspol ta dmaen intd intr adcs ren len lmono te_en done rxd txd rxr rxf
        cspol0 cspol1 cspol2 dma_len len_long cs_all :
      ControlStatus
