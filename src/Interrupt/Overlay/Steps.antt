-- ===== src/Interrupt/Overlay/Steps.antt =====
-- An IRQ object on a region of memory does what the object with separate blocks does, whatever
-- methods are called, and whatever the hardware puts into the registers in between.
use rpi3b.Base.{
  ℕ, ◌+◌, ◌<◌, refl, Bool, true, false, ltb, if◌then◌else◌, ltb→lt, Bool-cases, inl, inr, Option,
  none, some, List, [], ◌∷◌, arith, ◌-◌, bit_or,
}
use rpi3b.Interrupt
use rpi3b.Interrupt.{Code, Irq, max_handlers, dispatch_trampoline}
use rpi3b.Interrupt.Overlay
use rpi3b.Interrupt.Overlay.{
  Pointers, Placed, local_word_offset, arm_local_max, irqs_all_max, put_word,
}
use rpi3b.Interrupt.Overlay.Words.{
  Holds, Fits, put_word-memory, put_word-local, put_pointer-slot, put_pointer-handler,
}
use rpi3b.Interrupt.Registers.{Register, index}
use rpi3b.Mmio.{store, or_assign}
use rpi3b.Word.{◌<<◌}

-- A call of a method, or the hardware putting a word into a register.
pub data Event : Type 0 where
  enable disable : ℕ → Event
  register_handler install_irq_handler install_fiq_handler : ℕ → Option Code → Event
  install_vector_table : ℕ → Event
  raise : Register → ℕ → Event
  raise_local : ℕ → ℕ → Event

-- On the object with separate blocks.
unfoldable pub step : Irq → Event → Option Irq
step irq (enable n) = Interrupt.enable irq n
step irq (disable n) = Interrupt.disable irq n
step irq (register_handler n cb) = some (Interrupt.register_handler irq n cb)
step irq (install_irq_handler n cb) = some (Interrupt.install_irq_handler irq n cb)
step irq (install_fiq_handler n cb) = some (Interrupt.install_fiq_handler irq n cb)
step irq (install_vector_table at) = some (Interrupt.install_vector_table irq at)
step irq (raise r v) = some (record irq { memory = store irq.memory (index r) v })
step irq (raise_local i v) =
    if ltb i arm_local_max then some (record irq { local = store irq.local i v }) else some irq

pub index-lt : (r : Register) → index r < irqs_all_max
index-lt r = ground arith

module _ (p : Pointers) where
  -- On the region.
  unfoldable pub step_placed : Placed → Event → Option Placed
  step_placed o (enable n) =
      Overlay.set_line (index Register.enable_irqs_1) (index Register.enable_irqs_2) o n
  step_placed o (disable n) =
      Overlay.set_line (index Register.disable_irqs_1) (index Register.disable_irqs_2) o n
  step_placed o (register_handler n cb) = some (Overlay.set_handler p o n cb)
  step_placed o (install_irq_handler n cb) = some (Overlay.install_irq_handler p o n cb)
  step_placed o (install_fiq_handler n cb) = some (Overlay.install_fiq_handler p o n cb)
  step_placed o (install_vector_table at) = some (Overlay.install_vector_table o at)
  step_placed o (raise r v) = some (put_word o (index r) v)
  step_placed o (raise_local i v) =
      if ltb i arm_local_max then some (put_word o (local_word_offset + i) v) else some o

  -- Both are undefined, or the region holds the object.
  abbrev pub Agrees : Option Placed → Option Irq → Type 0
  Agrees none none = Unit {0}
  Agrees none (some irq) = ⊥
  Agrees (some o) none = ⊥
  Agrees (some o) (some irq) = Holds p o irq

  abbrev pub FitsEvent : Event → Type 0
  FitsEvent (register_handler n cb) = Fits p cb
  FitsEvent (install_irq_handler n cb) = Fits p cb
  FitsEvent (install_fiq_handler n cb) = Fits p cb
  FitsEvent e = Unit {0}

  Agrees-if :
      (b : Bool) (o o' : Option Placed) (irq irq' : Option Irq)
      → Agrees o irq
      → Agrees o' irq'
      → Agrees (if b then o else o') (if b then irq else irq')
  Agrees-if true o o' irq irq' h h' = h
  Agrees-if false o o' irq irq' h h' = h'

  module _ (o : Placed) (irq : Irq) (h : Holds p o irq) where
    or_word :
        (k v : ℕ)
        → k < irqs_all_max
        → Holds p
            (put_word o k (bit_or (o.words k) v))
            (record irq { memory = or_assign irq.memory k v })
    unfolding or_assign
    or_word k v lt =
        rw (h.memory k lt) (put_word-memory p o irq h k (bit_or (irq.memory.value k) v) lt)

    set_line-Agrees :
        (low high n : ℕ)
        → low < irqs_all_max
        → high < irqs_all_max
        → Agrees (Overlay.set_line low high o n) (Interrupt.set_line low high irq n)
    unfolding Overlay.set_line Interrupt.set_line
    set_line-Agrees low high n lt lt' =
        let first = record irq { memory = or_assign irq.memory low (1 << n) } in
        let second = record irq { memory = or_assign irq.memory high (1 << (n - 32)) } in
        Agrees-if (ltb n 32) _ _ (some first) (if ltb (n - 32) 32 then some second else none)
          (or_word low (1 << n) lt)
          (Agrees-if (ltb (n - 32) 32) _ none (some second) none (or_word high (1 << (n - 32)) lt')
            tt)

    set_handler-Holds :
        (n : ℕ) (cb : Option Code)
        → Fits p cb
        → Holds p
            (Overlay.set_handler p o n cb)
            (record irq { ivt = Interrupt.set_handler irq.ivt n cb })
    unfolding Overlay.set_handler Interrupt.set_handler
    set_handler-Holds n cb fits = elim (Bool-cases (ltb n max_handlers)) [
      | inl inside ↦ rw inside (put_pointer-handler p o irq h n cb (ltb→lt n _ inside) fits)
      | inr outside ↦ rw outside h
    ]

    raise_local-Agrees :
        (i v : ℕ) → Agrees (step_placed o (raise_local i v)) (step irq (raise_local i v))
    unfolding step step_placed
    raise_local-Agrees i v = elim (Bool-cases (ltb i arm_local_max)) [
      | inl inside ↦ rw inside (put_word-local p o irq h i v (ltb→lt i _ inside))
      | inr outside ↦ rw outside h
    ]

  entered :
      (o : Placed) (irq : Irq)
      → Holds p o irq
      → Holds p (record o { active = true }) (record irq { active = true })
  entered o irq h = record {
    memory = h.memory;
    slots = h.slots;
    handlers = h.handlers;
    local = h.local;
    vbar = h.vbar;
    active = refl;
  }

  module _ (trampoline : Fits p (some dispatch_trampoline)) where
    install_irq_handler-Holds :
        (o : Placed) (irq : Irq) (n : ℕ) (cb : Option Code)
        → Holds p o irq
        → Fits p cb
        → Holds p (Overlay.install_irq_handler p o n cb) (Interrupt.install_irq_handler irq n cb)
    unfolding Overlay.install_irq_handler Interrupt.install_irq_handler
    install_irq_handler-Holds o irq n cb h fits =
        let irq' = record irq { ivt = Interrupt.set_handler irq.ivt n cb } in
        let o' = Overlay.set_handler p o n cb in
        put_pointer-slot p (record o' { active = true }) (record irq' { active = true })
          (entered o' irq' (set_handler-Holds o irq h n cb fits)) 5 (some dispatch_trampoline)
          (omega arith) trampoline

    step-Agrees :
        (e : Event) (o : Placed) (irq : Irq)
        → Holds p o irq
        → FitsEvent e
        → Agrees (step_placed o e) (step irq e)
    unfolding step step_placed Interrupt.enable Interrupt.disable Interrupt.register_handler
        Overlay.install_fiq_handler Interrupt.install_fiq_handler Overlay.install_vector_table
        Interrupt.install_vector_table
    step-Agrees (enable n) o irq h f = set_line-Agrees o irq h 4 5 n (omega arith) (omega arith)
    step-Agrees (disable n) o irq h f = set_line-Agrees o irq h 7 8 n (omega arith) (omega arith)
    step-Agrees (register_handler n cb) o irq h f = set_handler-Holds o irq h n cb f
    step-Agrees (install_irq_handler n cb) o irq h f = install_irq_handler-Holds o irq n cb h f
    step-Agrees (install_fiq_handler n cb) o irq h f =
        put_pointer-slot p o irq h 6 cb (omega arith) f
    step-Agrees (install_vector_table at) o irq h f = record {
      memory = h.memory;
      slots = h.slots;
      handlers = h.handlers;
      local = h.local;
      vbar = refl;
      active = h.active;
    }
    step-Agrees (raise r v) o irq h f = put_word-memory p o irq h (index r) v (index-lt r)
    step-Agrees (raise_local i v) o irq h f = raise_local-Agrees o irq h i v

-- Events in a row, on either object; `none` once one is undefined.
unfoldable pub run_events : Option Irq → List Event → Option Irq
run_events none es = none
run_events (some irq) [] = some irq
run_events (some irq) (e ∷ es) = run_events (step irq e) es

unfoldable pub run_placed : Pointers → Option Placed → List Event → Option Placed
run_placed p none es = none
run_placed p (some o) [] = some o
run_placed p (some o) (e ∷ es) = run_placed p (step_placed p o e) es

abbrev pub FitEvents : Pointers → List Event → Type 0
FitEvents p [] = Unit {0}
FitEvents p (e ∷ es) = FitsEvent p e × FitEvents p es

pub run-Agrees :
    (p : Pointers) (es : List Event) (o : Option Placed) (irq : Option Irq)
    → Fits p (some dispatch_trampoline)
    → FitEvents p es
    → Agrees p o irq
    → Agrees p (run_placed p o es) (run_events irq es)
unfolding run_events run_placed
run-Agrees p es none none t f h = tt
run-Agrees p es none (some irq) t f h = absurd h
run-Agrees p es (some o) none t f h = absurd h
run-Agrees p [] (some o) (some irq) t f h = h
run-Agrees p (e ∷ es) (some o) (some irq) t f h =
    run-Agrees p es (step_placed p o e) (step irq e) t f.1 (step-Agrees p t e o irq h f.0)
