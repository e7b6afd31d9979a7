-- ===== src/I2c/Registers.antt =====
-- The enumerations of `BSCRegistersAddress` in src/inc/memory_map.hpp.
use rpi3b.Base.{ℕ}

pub data Register : Type 0 where
  c s dlen a fifo div del clkt : Register

-- The word index of a register in its block.
abbrev pub index : Register → ℕ
index Register.c = 0
index Register.s = 1
index Register.dlen = 2
index Register.a = 3
index Register.fifo = 4
index Register.div = 5
index Register.del = 6
index Register.clkt = 7

pub data Control : Type 0 where
  read clear st intd intt intr i2cen c_all : Control

pub data Status : Type 0 where
  ta done txw rxr txd rxd txe rxf err clkt_to s_all : Status
