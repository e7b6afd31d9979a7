-- ===== src/Interrupt/Overlay/Same.antt =====
-- What can be seen of an IRQ object on a region of memory: its handlers, its lines, and what runs
-- when a core takes an interrupt.
use rpi3b.Base.{
  ℕ, zero, suc, ◌+◌, ◌<◌, ◌≡◌, refl, ap, ap₂, Bool, true, false, ltb, if◌then◌else◌, ltb→lt,
  Bool-cases, inl, inr, Option, none, some, List, arith,
}
use rpi3b.Interrupt
use rpi3b.Interrupt.{Irq, Code, user, dispatch_trampoline, max_handlers, Served, lowest_set_bit}
use rpi3b.Interrupt.Overlay
use rpi3b.Interrupt.Overlay.{Pointers, Placed, vector_count, slot_at, load_pointer}
use rpi3b.Interrupt.Overlay.Bounds.{Outside, run_placed-Outside}
use rpi3b.Interrupt.Overlay.Steps.{Event, FitEvents, Agrees, run_events, run_placed, run-Agrees}
use rpi3b.Interrupt.Overlay.Words.{Holds, Fits}
use rpi3b.Word.Single.{is_set}

module _ (p : Pointers) (o : Placed) (irq : Irq) (h : Holds p o irq) where
  handler-same : (n : ℕ) → Overlay.handler p o n ≡ Interrupt.handler_for irq n
  unfolding Overlay.handler Interrupt.handler_for Interrupt.handler
  handler-same n = elim (Bool-cases (ltb n max_handlers)) [
    | inl inside ↦ rw inside (h.handlers n (ltb→lt n _ inside))
    | inr outside ↦ rw outside refl
  ]

  local_lines-same :
      (left line source : ℕ)
      → Overlay.local_lines p left line source o ≡ Interrupt.local_lines left line source irq.ivt
  unfolding Overlay.local_lines Interrupt.local_lines Interrupt.handler_for
  local_lines-same zero line source = refl
  local_lines-same (suc left) line source =
      elim (is_set source line)
        as (λ (up : Bool).
          let rest = Overlay.local_lines p left (line + 1) source o in
          let rest' = Interrupt.local_lines left (line + 1) source irq.ivt in
          let handled = Overlay.handler p o (64 + line) in
          let handled' = Interrupt.handler irq.ivt (64 + line) in
          let e : Served = elim up [ true ↦ Served.call handled | false ↦ rest ] in
          let e' : Served = elim up [ true ↦ Served.call handled' | false ↦ rest' ] in e ≡ e') [
            | true ↦ ap Served.call (handler-same (64 + line))
            | false ↦ local_lines-same left (line + 1) source
          ]

  pending_bank-same :
      (offset : ℕ) (bit : Option ℕ)
      → Overlay.pending_bank p o offset bit ≡ Interrupt.pending_bank irq.ivt offset bit
  unfolding Overlay.pending_bank Interrupt.pending_bank Interrupt.handler_for
  pending_bank-same offset none = refl
  pending_bank-same offset (some bit) = ap Served.call (handler-same (offset + bit))

  dispatch-same : (core : ℕ) → core < 4 → Overlay.dispatch p o core ≡ Interrupt.dispatch irq core
  unfolding Overlay.dispatch Interrupt.dispatch Interrupt.serve
  dispatch-same core lt =
      let source = irq.local.value (24 + core) in
      let p1 = irq.memory.value 1 in
      let p2 = irq.memory.value 2 in
      rw (h.local (24 + core) (omega arith), h.memory 1 (omega arith), h.memory 2 (omega arith))
        (rw
          (
            local_lines-same 4 0 source,
            pending_bank-same 0 (lowest_set_bit p1),
            pending_bank-same 32 (lowest_set_bit p2),
          )
          refl)

  is_enabled-same : (n : ℕ) → Overlay.is_enabled o n ≡ Interrupt.is_enabled irq n
  unfolding Overlay.is_enabled Interrupt.is_enabled
  is_enabled-same n = rw (h.memory 4 (omega arith), h.memory 5 (omega arith)) refl

  enter_code-same : (cb : Option Code) → Overlay.enter_code p o cb ≡ Interrupt.enter irq cb
  unfolding Overlay.enter_code Interrupt.enter
  enter_code-same none = refl
  enter_code-same (some dispatch_trampoline) =
      ap₂ (λ (b : Bool) (cb : Option Code). if b then cb else none) h.active
        (dispatch-same 0 (omega arith))
  enter_code-same (some (user f)) = refl

  enter-same :
      (n : ℕ) → n < vector_count → Overlay.enter p o n ≡ Interrupt.enter irq (irq.ivt.slots n)
  unfolding Overlay.enter
  enter-same n lt = rw (h.slots n lt) (enter_code-same (irq.ivt.slots n))

-- What the caller and the cores see of the two objects is the same.
pub record Seen (p : Pointers) (o : Placed) (irq : Irq) : Type 0 where
  pub handled : (n : ℕ) → Overlay.handler p o n ≡ Interrupt.handler_for irq n
  pub enabled : (n : ℕ) → Overlay.is_enabled o n ≡ Interrupt.is_enabled irq n
  pub dispatched : (core : ℕ) → core < 4 → Overlay.dispatch p o core ≡ Interrupt.dispatch irq core
  pub entered :
      (n : ℕ) → n < vector_count → Overlay.enter p o n ≡ Interrupt.enter irq (irq.ivt.slots n)
  pub table : o.vbar ≡ irq.vbar

-- Both are undefined, or both are seen to be the same.
abbrev pub SeenAlike : Pointers → Option Placed → Option Irq → Type 0
SeenAlike p none none = Unit {0}
SeenAlike p none (some irq) = ⊥
SeenAlike p (some o) none = ⊥
SeenAlike p (some o) (some irq) = Seen p o irq

Agrees-SeenAlike :
    (p : Pointers) (o : Option Placed) (irq : Option Irq) → Agrees p o irq → SeenAlike p o irq
Agrees-SeenAlike p none none h = tt
Agrees-SeenAlike p none (some irq) h = h
Agrees-SeenAlike p (some o) none h = h
Agrees-SeenAlike p (some o) (some irq) h = record {
  handled = handler-same p o irq h;
  enabled = is_enabled-same p o irq h;
  dispatched = dispatch-same p o irq h;
  entered = enter-same p o irq h;
  table = h.vbar;
}

-- An IRQ object on a region of `region_words` words, with its register blocks and its tables one
-- after another, and one with separate blocks that it agrees with at first: after any calls of their
-- methods, and whatever the hardware puts into the registers in between, either both met an
-- undefined shift, or every handler, every line's state, the vector table and the function that
-- runs for each core and each vector are the same; and no word behind the region has changed. The
-- pointers that are stored have to be ones that 64 bits hold.
pub run_placed-run_events :
    (p : Pointers) (o : Placed) (irq : Irq) (es : List Event)
    → Holds p o irq
    → Fits p (some dispatch_trampoline)
    → FitEvents p es
    → SeenAlike p (run_placed p (some o) es) (run_events (some irq) es)
      × Outside o (run_placed p (some o) es)
run_placed-run_events p o irq es h t f = (
  Agrees-SeenAlike p (run_placed p (some o) es) (run_events (some irq) es)
      (run-Agrees p es (some o) (some irq) t f h),
  run_placed-Outside p o es,
)
