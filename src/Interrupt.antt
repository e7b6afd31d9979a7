-- ===== src/Interrupt.antt =====
-- `class IVT` and `class IRQ` of src/inc/interrupt.hpp, with src/src/interrupt/interrupt.cpp.
pub mod Registers
pub mod Lines
pub mod Lowest
pub mod Dispatch
pub mod Overlay
use rpi3b.Base.{
  ℕ, zero, suc, ◌+◌, ◌-◌, Bool, true, false, ltb, ◌==◌, if◌then◌else◌, bit_and, Option, none, some,
}
use rpi3b.Word.{◌<<◌, ◌>>◌}
use rpi3b.Word.Single.{is_set}
use rpi3b.Mmio.{Mmio, load, or_assign}
use rpi3b.Interrupt.Registers.{
  index, irq_pending1, irq_pending2, enable_irqs_1, enable_irqs_2, disable_irqs_1, disable_irqs_2,
  local_index, core_irq_source0, source_bit, gpu, vector_number, cur_el_spx_irq, cur_el_spx_fiq,
}

-- A function pointer: the driver's own trampoline, or one of the caller's functions.
pub data Code : Type 0 where
  dispatch_trampoline : Code
  user : ℕ → Code

abbrev pub max_handlers : ℕ
max_handlers = 72

abbrev pub local_base : ℕ
local_base = 64

-- `none` is a null pointer.
pub record Ivt : Type 0 where
  pub slots : ℕ → Option Code
  pub handlers : ℕ → Option Code

abbrev pub assign : (ℕ → Option Code) → ℕ → Option Code → ℕ → Option Code
assign f i v j = if i == j then v else f j

unfoldable pub handler : Ivt → ℕ → Option Code
handler ivt irq = if ltb irq max_handlers then ivt.handlers irq else none

unfoldable pub set_handler : Ivt → ℕ → Option Code → Ivt
set_handler ivt irq cb =
    if ltb irq max_handlers then record ivt { handlers = assign ivt.handlers irq cb } else ivt

-- `active` says that `s_active` points at this object.
pub record Irq : Type 0 where
  pub memory : Mmio
  pub ivt : Ivt
  pub local : Mmio
  pub vbar : Option ℕ
  pub active : Bool

-- `none`: the shift is by 32 or more, which C++ leaves undefined.
unfoldable pub set_line : ℕ → ℕ → Irq → ℕ → Option Irq
set_line low high irq n =
    if ltb n 32
    then some (record irq { memory = or_assign irq.memory low (1 << n) })
    else if ltb (n - 32) 32
    then some (record irq { memory = or_assign irq.memory high (1 << (n - 32)) })
    else none

unfoldable pub enable : Irq → ℕ → Option Irq
unfolding set_line
enable irq n = set_line (index enable_irqs_1) (index enable_irqs_2) irq n

unfoldable pub disable : Irq → ℕ → Option Irq
unfolding set_line
disable irq n = set_line (index disable_irqs_1) (index disable_irqs_2) irq n

unfoldable pub is_enabled : Irq → ℕ → Option Bool
unfolding load
is_enabled irq n =
    if ltb n 32
    then some (bit_and (load irq.memory (index enable_irqs_1) >> n) 1 == 1)
    else if ltb (n - 32) 32
    then some (bit_and (load irq.memory (index enable_irqs_2) >> (n - 32)) 1 == 1)
    else none

unfoldable pub register_handler : Irq → ℕ → Option Code → Irq
unfolding set_handler
register_handler irq number cb = record irq { ivt = set_handler irq.ivt number cb }

unfoldable pub handler_for : Irq → ℕ → Option Code
unfolding handler
handler_for irq number = handler irq.ivt number

-- The loop of `lowest_set_bit`, with fuel for 32 bits.
unfoldable pub skip_zeros : ℕ → ℕ → ℕ → ℕ
skip_zeros zero v n = n
skip_zeros (suc fuel) v n = elim (bit_and v 1 == 0) [
  | true ↦ skip_zeros fuel (v >> 1) (n + 1)
  | false ↦ n
]

-- `none` is the -1 of the source.
unfoldable pub lowest_set_bit : ℕ → Option ℕ
unfolding skip_zeros
lowest_set_bit v = if v == 0 then none else some (skip_zeros 32 v 0)

-- What `dispatch` does: it returns without a call, it calls a handler if there is one, or it goes
-- on to the next statement.
pub data Served : Type 0 where
  next : Served
  call : Option Code → Served

-- `for (line = CNTPSIRQ; line <= CNTVIRQ; ++line)`, with the number of lines left.
unfoldable pub local_lines : ℕ → ℕ → ℕ → Ivt → Served
local_lines zero line source ivt = next
local_lines (suc left) line source ivt = elim (is_set source line) [
  | true ↦ call (handler ivt (local_base + line))
  | false ↦ local_lines left (line + 1) source ivt
]

unfoldable pub pending_bank : Ivt → ℕ → Option ℕ → Served
pending_bank ivt offset none = next
pending_bank ivt offset (some bit) = call (handler ivt (offset + bit))

abbrev pub or_else : Served → Served → Served
or_else next s = s
or_else (call cb) s = call cb

-- The function that `dispatch` calls, if any.
abbrev pub called : Served → Option Code
called next = none
called (call cb) = cb

unfoldable pub serve : Irq → ℕ → Served
unfolding load
serve irq core =
    let source = load irq.local (local_index core_irq_source0 + core) in
    let p1 = load irq.memory (index irq_pending1) in
    let p2 = load irq.memory (index irq_pending2) in
    or_else (local_lines 4 0 source irq.ivt) (
      if is_set source (source_bit gpu)
      then or_else (pending_bank irq.ivt 0 (lowest_set_bit p1))
          (pending_bank irq.ivt 32 (lowest_set_bit p2))
      else next)

unfoldable pub dispatch : Irq → ℕ → Option Code
unfolding serve
dispatch irq core = called (serve irq core)

unfoldable pub install_irq_handler : Irq → ℕ → Option Code → Irq
unfolding set_handler
install_irq_handler irq number cb =
    let ivt = set_handler irq.ivt number cb in
    record irq {
      ivt = record ivt {
        slots = assign ivt.slots (vector_number cur_el_spx_irq) (some dispatch_trampoline);
      };
      active = true;
    }

unfoldable pub install_fiq_handler : Irq → ℕ → Option Code → Irq
install_fiq_handler irq number cb = record irq {
  ivt = record irq.ivt { slots = assign irq.ivt.slots (vector_number cur_el_spx_fiq) cb };
}

unfoldable pub install_vector_table : Irq → ℕ → Irq
install_vector_table irq table = record irq { vbar = some table }

-- The user function that runs when the code in a vector slot is entered: the trampoline
-- dispatches for core 0 on the active object.
unfoldable pub enter : Irq → Option Code → Option Code
unfolding dispatch
enter irq none = none
enter irq (some dispatch_trampoline) = if irq.active then dispatch irq 0 else none
enter irq (some (user f)) = some (user f)
