-- ===== src/Interrupt/Overlay.antt =====
-- `class IRQ` placed on a region of memory, as its templated constructor in src/inc/interrupt.hpp
-- and the placement operators do: the registers of the legacy controller, the tables of class IVT
-- and the ARM-local registers one after another in the caller's words. A pointer takes 64 bits.
-- Each method is written again on the words, in the order of its loads and stores.
pub mod Words
pub mod Bounds
pub mod Same
pub mod Steps
use rpi3b.Base.{
  ℕ, zero, suc, ◌+◌, ◌-◌, ◌*◌, ◌/◌, ◌%◌, ◌^◌, Bool, true, false, ltb, ◌==◌, if◌then◌else◌, bit_and,
  bit_or, Option, none, some,
}
use rpi3b.Interrupt.{
  Code, dispatch_trampoline, user, max_handlers, local_base, lowest_set_bit, Served, next, call,
  or_else, called,
}
use rpi3b.Interrupt.Registers.{
  index, irq_pending1, irq_pending2, enable_irqs_1, enable_irqs_2, disable_irqs_1, disable_irqs_2,
  local_index, core_irq_source0, source_bit, gpu, vector_number, cur_el_spx_irq, cur_el_spx_fiq,
}
use rpi3b.Mmio.{update}
use rpi3b.Word.{◌<<◌, ◌>>◌}
use rpi3b.Word.Single.{is_set}

-- `IRQs_ALL_MAX`, `Vector::Count` and `ARM_LOCAL_MAX`
abbrev pub irqs_all_max : ℕ
irqs_all_max = 10

abbrev pub vector_count : ℕ
vector_count = 16

abbrev pub arm_local_max : ℕ
arm_local_max = 0x80 / 4

-- `sizeof(IVT)`: two arrays of pointers.
abbrev pub ivt_bytes : ℕ
ivt_bytes = 8 * vector_count + 8 * max_handlers

-- `kIvtWordOffset`, `kLocalWordOffset` and `region_words()`
abbrev pub ivt_word_offset : ℕ
ivt_word_offset = irqs_all_max

abbrev pub local_word_offset : ℕ
local_word_offset = ivt_word_offset + (ivt_bytes + 4 - 1) / 4

abbrev pub region_words : ℕ
region_words = local_word_offset + arm_local_max

-- The words at which `m_slots[n]` and `m_handlers[n]` begin.
abbrev pub slot_at : ℕ → ℕ
slot_at n = ivt_word_offset + 2 * n

abbrev pub handler_at : ℕ → ℕ
handler_at n = ivt_word_offset + 2 * (vector_count + n)

-- How the addresses of functions stand in memory; `none` is the null pointer.
pub record Pointers : Type 0 where
  pub encode : Option Code → ℕ
  pub decode : ℕ → Option Code

-- The words of the region, `m_vbar`, and whether `s_active` points at the object.
pub record Placed : Type 0 where
  pub words : ℕ → ℕ
  pub vbar : Option ℕ
  pub active : Bool

unfoldable pub load_pointer : Pointers → (ℕ → ℕ) → ℕ → Option Code
load_pointer p words at = p.decode (words at + 2 ^ 32 * words (at + 1))

unfoldable pub store_pointer : Pointers → (ℕ → ℕ) → ℕ → Option Code → ℕ → ℕ
store_pointer p words at cb =
    update (update words at (p.encode cb % 2 ^ 32)) (at + 1) (p.encode cb / 2 ^ 32 % 2 ^ 32)

abbrev pub put_word : Placed → ℕ → ℕ → Placed
put_word o at v = record o { words = update o.words at v }

abbrev pub put_pointer : Pointers → Placed → ℕ → Option Code → Placed
put_pointer p o at cb = record o { words = store_pointer p o.words at cb }

module _ (p : Pointers) where
  unfoldable pub handler : Placed → ℕ → Option Code
  unfolding load_pointer
  handler o irq = if ltb irq max_handlers then load_pointer p o.words (handler_at irq) else none

  unfoldable pub set_handler : Placed → ℕ → Option Code → Placed
  set_handler o irq cb = if ltb irq max_handlers then put_pointer p o (handler_at irq) cb else o

  unfoldable pub install_irq_handler : Placed → ℕ → Option Code → Placed
  unfolding set_handler
  install_irq_handler o number cb =
      let entered = record (set_handler o number cb) { active = true } in
      put_pointer p entered (slot_at (vector_number cur_el_spx_irq)) (some dispatch_trampoline)

  unfoldable pub install_fiq_handler : Placed → ℕ → Option Code → Placed
  install_fiq_handler o number cb = put_pointer p o (slot_at (vector_number cur_el_spx_fiq)) cb

  -- The timer lines, with the number of lines left.
  unfoldable pub local_lines : ℕ → ℕ → ℕ → Placed → Served
  local_lines zero line source o = next
  local_lines (suc left) line source o = elim (is_set source line) [
    | true ↦ call (handler o (local_base + line))
    | false ↦ local_lines left (line + 1) source o
  ]

  unfoldable pub pending_bank : Placed → ℕ → Option ℕ → Served
  pending_bank o offset none = next
  pending_bank o offset (some bit) = call (handler o (offset + bit))

  unfoldable pub dispatch : Placed → ℕ → Option Code
  dispatch o core =
      let source = o.words (local_word_offset + (local_index core_irq_source0 + core)) in
      let p1 = o.words (index irq_pending1) in
      let p2 = o.words (index irq_pending2) in
      called (
        or_else (local_lines 4 0 source o) (
          if is_set source (source_bit gpu)
          then or_else (pending_bank o 0 (lowest_set_bit p1))
              (pending_bank o 32 (lowest_set_bit p2))
          else next))

  -- The user function that runs when a vector is entered.
  unfoldable pub enter_code : Placed → Option Code → Option Code
  enter_code o none = none
  enter_code o (some dispatch_trampoline) = if o.active then dispatch o 0 else none
  enter_code o (some (user f)) = some (user f)

  unfoldable pub enter : Placed → ℕ → Option Code
  unfolding enter_code
  enter o vector = enter_code o (load_pointer p o.words (slot_at vector))

-- `none`: the shift is by 32 or more.
unfoldable pub set_line : ℕ → ℕ → Placed → ℕ → Option Placed
set_line low high o n =
    if ltb n 32
    then some (put_word o low (bit_or (o.words low) (1 << n)))
    else if ltb (n - 32) 32
    then some (put_word o high (bit_or (o.words high) (1 << (n - 32))))
    else none

unfoldable pub is_enabled : Placed → ℕ → Option Bool
is_enabled o n =
    if ltb n 32
    then some (bit_and (o.words (index enable_irqs_1) >> n) 1 == 1)
    else if ltb (n - 32) 32
    then some (bit_and (o.words (index enable_irqs_2) >> (n - 32)) 1 == 1)
    else none

unfoldable pub install_vector_table : Placed → ℕ → Placed
install_vector_table o table = record o { vbar = some table }
