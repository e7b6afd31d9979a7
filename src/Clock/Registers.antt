-- ===== src/Clock/Registers.antt =====
-- The enumerations of `ClockRegistersAddress` in src/inc/memory_map.hpp.
use rpi3b.Base.{ℕ}

pub data Register : Type 0 where
  cm_gp0ctl cm_gp0div cm_gp1ctl cm_gp1div cm_gp2ctl cm_gp2div : Register

abbrev pub index : Register → ℕ
index cm_gp0ctl = 0
index cm_gp0div = 1
index cm_gp1ctl = 2
index cm_gp1div = 3
index cm_gp2ctl = 4
index cm_gp2div = 5

pub data CtlType : Type 0 where
  src enab kill unused busy flip mash all : CtlType

pub data ClockDivisor : Type 0 where
  divf divi both_value : ClockDivisor
