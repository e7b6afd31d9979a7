-- ===== src/Tests/InterruptRuns.antt =====
-- Runs of the interrupt driver.
use rpi3b.Base.{◌≡◌, refl, false, ◌==◌, if◌then◌else◌, arith, some, none, []}
use mathlib.Core.Option
use rpi3b.Word.{bit_at}
use rpi3b.Mmio.{IsWords}
use rpi3b.Interrupt.{user, Irq, handler, dispatch}
use rpi3b.Interrupt.Lowest.{first_from}
use rpi3b.Interrupt.Dispatch.{highest, dispatch-highest}
use rpi3b.Tests.Data.{filled_with}

-- Bit 8, the combined line, is the only source of the core, and interrupt 41 is pending.
abbrev pub board : Irq
board = record {
  memory = record { value = λ i. if i == 2 then 0x200 else 0; stores = [] };
  ivt = record { slots = λ i. none; handlers = λ i. if i == 41 then some (user 7) else none };
  local = filled_with 0x100;
  vbar = none;
  active = false;
}

board-IsWords : IsWords board.memory
board-IsWords i = ground arith

dispatch_example : dispatch board 0 ≡ Option.bind (highest board 0) (handler board.ivt)
dispatch_example = dispatch-highest board 0 board-IsWords

highest-board : highest board 0 ≡ some 41
unfolding highest first_from bit_at
highest-board = refl
