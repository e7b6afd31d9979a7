-- ===== src/Clock.antt =====
-- `class CLOCK` of src/inc/clock.hpp, with its methods from src/src/clock/clock.cpp. The class has
-- two sets of methods on the same registers: `set_`, `clr_` and `get_CM_GPn...`, which are given the
-- register, and `CM_GP0DIV`, `CM_GP0CTL` and so on, which `write` and `read` choose from. The
-- overloads of the latter are told apart by `put_` for those that store.
pub mod Registers
pub mod Divisor
pub mod Cleared
pub mod Control
pub mod ReadBack
pub mod Password
mod Sources
use rpi3b.Base.{ℕ, bit_and, bit_or, Option, none, some}
use rpi3b.Word.{not32, ◌<<◌, ◌>>◌}
use rpi3b.Mmio.{Mmio, load, store, or_assign, and_assign}
use rpi3b.Clock.Registers.{
  Register, index, cm_gp0ctl, cm_gp0div, cm_gp1ctl, cm_gp1div, cm_gp2ctl, cm_gp2div, CtlType, src,
  enab, kill, unused, busy, flip, mash, all, ClockDivisor, divf, divi, both_value,
}

-- The registers are memory here; Password says what becomes of these stores on the hardware.

-- `~((~0U) << w)`
abbrev pub low_ones : ℕ → ℕ
low_ones w = not32 (not32 0 << w)

unfoldable pub set_cm_gpndiv : Mmio → Register → ClockDivisor → ℕ → Mmio
set_cm_gpndiv m reg divi v = or_assign m (index reg) (bit_and (low_ones 12) v << 12)
set_cm_gpndiv m reg divf v = or_assign m (index reg) (bit_and (low_ones 12) v)
set_cm_gpndiv m reg both_value v = or_assign m (index reg) (bit_and (low_ones 24) v)

unfoldable pub clr_cm_gpndiv : Mmio → Register → ClockDivisor → Mmio
clr_cm_gpndiv m reg divi = and_assign m (index reg) (bit_and (low_ones 24) (low_ones 12))
clr_cm_gpndiv m reg divf = and_assign m (index reg) (not32 0 << 12)
clr_cm_gpndiv m reg both_value = and_assign m (index reg) (not32 0 << 24)

unfoldable pub get_cm_gpndiv : Mmio → Register → ClockDivisor → ℕ
unfolding load
get_cm_gpndiv m reg divi = bit_and (load m (index reg) >> 12) (low_ones 12)
get_cm_gpndiv m reg divf = bit_and (load m (index reg)) (not32 (1 << 12))
get_cm_gpndiv m reg both_value = bit_and (load m (index reg)) (not32 (1 << 24))

-- BUSY, FLIP and the unused type store nothing.
unfoldable pub set_cm_gpnctl : Mmio → Register → CtlType → ℕ → Mmio
unfolding store
set_cm_gpnctl m reg src v = or_assign m (index reg) (bit_and (low_ones 4) v)
set_cm_gpnctl m reg enab v = or_assign m (index reg) (bit_and v 1 << 4)
set_cm_gpnctl m reg kill v = or_assign m (index reg) (bit_and v 1 << 5)
set_cm_gpnctl m reg mash v = or_assign m (index reg) (bit_and v 0b11 << 8)
set_cm_gpnctl m reg all v = store m (index reg) v
set_cm_gpnctl m reg _ v = m

unfoldable pub clr_cm_gpnctl : Mmio → Register → CtlType → Mmio
clr_cm_gpnctl m reg src = and_assign m (index reg) (not32 0b1111 << 0)
clr_cm_gpnctl m reg enab = and_assign m (index reg) (not32 (1 << 4))
clr_cm_gpnctl m reg kill = and_assign m (index reg) (not32 (1 << 5))
clr_cm_gpnctl m reg mash = and_assign m (index reg) (not32 (0b11 << 8))
clr_cm_gpnctl m reg all = and_assign m (index reg) (
    not32 (
      bit_or (bit_or (bit_or (bit_or (bit_or 0b1111 (1 << 4)) (1 << 5)) (1 << 6)) (1 << 7))
        (0b11 << 8)))
clr_cm_gpnctl m reg _ = m

unfoldable pub get_cm_gpnctl : Mmio → Register → CtlType → ℕ
unfolding load
get_cm_gpnctl m reg src = bit_and (load m (index reg)) 0b1111
get_cm_gpnctl m reg enab = bit_and (load m (index reg) >> 4) 1
get_cm_gpnctl m reg kill = bit_and (load m (index reg) >> 5) 1
get_cm_gpnctl m reg mash = bit_and (load m (index reg) >> 8) 0b11
get_cm_gpnctl m reg all = load m (index reg)
get_cm_gpnctl m reg _ = 0

-- The body that the three methods `CM_GPnDIV` which store have, at their register.
unfoldable pub put_div : Register → Mmio → ClockDivisor → ℕ → Mmio
put_div reg m divi v = or_assign m (index reg) (bit_and (low_ones 12) v << 12)
put_div reg m divf v = or_assign m (index reg) (bit_and (low_ones 12) v)
put_div reg m both_value v = or_assign m (index reg) (bit_and (low_ones 24) v)

-- The body that the three methods `CM_GPnDIV` which read have.
unfoldable pub take_div : Register → Mmio → ClockDivisor → ℕ
unfolding load
take_div reg m divi = bit_and (load m (index reg) >> 12) (low_ones 12)
take_div reg m divf = bit_and (load m (index reg)) (low_ones 12)
take_div reg m both_value = bit_and (load m (index reg)) (low_ones 24)

unfoldable pub put_cm_gp0div : Mmio → ClockDivisor → ℕ → Mmio
unfolding put_div
put_cm_gp0div m divisor v = put_div cm_gp0div m divisor v

unfoldable pub get_cm_gp0div : Mmio → ClockDivisor → ℕ
unfolding take_div
get_cm_gp0div m divisor = take_div cm_gp0div m divisor

unfoldable pub put_cm_gp1div : Mmio → ClockDivisor → ℕ → Mmio
unfolding put_div
put_cm_gp1div m divisor v = put_div cm_gp1div m divisor v

unfoldable pub get_cm_gp1div : Mmio → ClockDivisor → ℕ
unfolding take_div
get_cm_gp1div m divisor = take_div cm_gp1div m divisor

unfoldable pub put_cm_gp2div : Mmio → ClockDivisor → ℕ → Mmio
unfolding put_div
put_cm_gp2div m divisor v = put_div cm_gp2div m divisor v

unfoldable pub get_cm_gp2div : Mmio → ClockDivisor → ℕ
unfolding take_div
get_cm_gp2div m divisor = take_div cm_gp2div m divisor

unfoldable pub write_div : Mmio → Register → ClockDivisor → ℕ → Mmio
unfolding put_cm_gp0div put_cm_gp1div put_cm_gp2div
write_div m cm_gp0div divif v = put_cm_gp0div m divif v
write_div m cm_gp1div divif v = put_cm_gp1div m divif v
write_div m cm_gp2div divif v = put_cm_gp2div m divif v
write_div m _ divif v = m

unfoldable pub read_div : Mmio → Register → ClockDivisor → ℕ
unfolding get_cm_gp0div get_cm_gp1div get_cm_gp2div
read_div m cm_gp0div divif = get_cm_gp0div m divif
read_div m cm_gp1div divif = get_cm_gp1div m divif
read_div m cm_gp2div divif = get_cm_gp2div m divif
read_div m _ divif = 0

-- The body that the three methods `CM_GPnCTL` which store have.
unfoldable pub put_ctl : Register → Mmio → CtlType → ℕ → Mmio
unfolding store
put_ctl reg m src v = or_assign m (index reg) (bit_and (low_ones 4) v)
put_ctl reg m enab v = or_assign m (index reg) (bit_and v 1 << 5)
put_ctl reg m kill v = or_assign m (index reg) (bit_and v 1 << 6)
put_ctl reg m mash v = or_assign m (index reg) (bit_and v (low_ones 2) << 10)
put_ctl reg m all v = store m (index reg) (
    bit_or (bit_or (bit_or (bit_and (low_ones 4) v) (bit_and v 1 << 5)) (bit_and v 1 << 6))
      (bit_and v (low_ones 2) << 10))
put_ctl reg m _ v = m

-- The body that the three methods `CM_GPnCTL` which read have.
unfoldable pub take_ctl : Register → Mmio → CtlType → ℕ
unfolding load
take_ctl reg m src = bit_and (load m (index reg)) (low_ones 4)
take_ctl reg m enab = bit_and (load m (index reg) >> 5) 1
take_ctl reg m kill = bit_and (load m (index reg) >> 6) 1
take_ctl reg m mash = bit_and (load m (index reg) >> 10) (low_ones 2)
take_ctl reg m all = load m (index reg)
take_ctl reg m _ = 0

unfoldable pub put_cm_gp0ctl : Mmio → CtlType → ℕ → Mmio
unfolding put_ctl
put_cm_gp0ctl m ctl v = put_ctl cm_gp0ctl m ctl v

unfoldable pub get_cm_gp0ctl : Mmio → CtlType → ℕ
unfolding take_ctl
get_cm_gp0ctl m ctl = take_ctl cm_gp0ctl m ctl

unfoldable pub put_cm_gp1ctl : Mmio → CtlType → ℕ → Mmio
unfolding put_ctl
put_cm_gp1ctl m ctl v = put_ctl cm_gp1ctl m ctl v

unfoldable pub get_cm_gp1ctl : Mmio → CtlType → ℕ
unfolding take_ctl
get_cm_gp1ctl m ctl = take_ctl cm_gp1ctl m ctl

unfoldable pub put_cm_gp2ctl : Mmio → CtlType → ℕ → Mmio
unfolding put_ctl
put_cm_gp2ctl m ctl v = put_ctl cm_gp2ctl m ctl v

unfoldable pub get_cm_gp2ctl : Mmio → CtlType → ℕ
unfolding take_ctl
get_cm_gp2ctl m ctl = take_ctl cm_gp2ctl m ctl

unfoldable pub write_ctl : Mmio → Register → CtlType → ℕ → Mmio
unfolding put_cm_gp0ctl put_cm_gp1ctl put_cm_gp2ctl
write_ctl m cm_gp0ctl type v = put_cm_gp0ctl m type v
write_ctl m cm_gp1ctl type v = put_cm_gp1ctl m type v
write_ctl m cm_gp2ctl type v = put_cm_gp2ctl m type v
write_ctl m _ type v = m

-- For another register the source returns a variable that it has not set: `none`.
unfoldable pub read_ctl : Mmio → Register → CtlType → Option ℕ
unfolding get_cm_gp0ctl get_cm_gp1ctl get_cm_gp2ctl
read_ctl m cm_gp0ctl type = some (get_cm_gp0ctl m type)
read_ctl m cm_gp1ctl type = some (get_cm_gp1ctl m type)
read_ctl m cm_gp2ctl type = some (get_cm_gp2ctl m type)
read_ctl m _ type = none
