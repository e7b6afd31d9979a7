-- ===== src/Interrupt/Dispatch.antt =====
-- `IRQ::dispatch` against an order of priorities: the four timer lines of the core, then, behind
-- the combined line, the peripheral interrupts 0 to 63.
use mathlib.Core.Option
use native.Mathlib.Nat.{suc-add, zero-add}
use rpi3b.Base.{
  ℕ, zero, suc, ◌+◌, ◌-◌, ◌<◌, ◌≤◌, ◌≡◌, refl, sym, ap, ap₂, ◌∙◌, Bool, true, false, Option, none,
  some, arith, ltb, if◌then◌else◌,
}
use rpi3b.Word.{bit_at}
use rpi3b.Word.Single.{is_set_lem}
use rpi3b.Mmio.{Mmio, IsWords}
use rpi3b.Interrupt.Registers.{
  index, irq_pending1, irq_pending2, local_index, core_irq_source0, source_bit, gpu, vector_number,
  cur_el_spx_irq,
}
use rpi3b.Interrupt.{
  Code, Irq, Ivt, next, or_else, called, handler, local_lines, local_base, pending_bank, serve,
  dispatch, lowest_set_bit, install_irq_handler, enter, max_handlers, set_handler,
}
use rpi3b.Interrupt.Lowest.{first_from, lowest_set_bit-first_from}

-- Whether the legacy controller reports the interrupt as pending.
abbrev pub is_pending : Mmio → ℕ → Bool
is_pending m i =
    if ltb i 32
    then bit_at (m.value (index irq_pending1)) i
    else bit_at (m.value (index irq_pending2)) (i - 32)

abbrev pub or_other : Option ℕ → Option ℕ → Option ℕ
or_other none o = o
or_other (some i) o = some i

-- The slot in the table of handlers of the source with the highest priority.
unfoldable pub highest : Irq → ℕ → Option ℕ
highest irq core =
    let source = irq.local.value (local_index core_irq_source0 + core) in
    or_other (Option.map (λ line. local_base + line) (first_from (bit_at source) 4 0))
      (if bit_at source (source_bit gpu) then first_from (is_pending irq.memory) 64 0 else none)

congr_from :
    (p : ℕ → Bool) (n n' k k' : ℕ) → n ≡ n' → k ≡ k' → first_from p n k ≡ first_from p n' k'
congr_from p n n' k k' e e' = ap₂ (first_from p) e e'

first_from-split :
    (p : ℕ → Bool) (a b k : ℕ)
    → first_from p (a + b) k ≡ or_other (first_from p a k) (first_from p b (k + a))
unfolding first_from
first_from-split p zero b k = congr_from p (0 + b) b k (k + 0) (omega arith) (omega arith)
first_from-split p (suc a) b k =
    rw suc-add
      (ground (arith, first_from-split p a b (k + 1), congr_from p b b (k + 1 + a) (k + suc a)))

first_from-shift :
    (p q : ℕ → Bool) (o n k : ℕ)
    → ((i : ℕ) → q (o + i) ≡ p i)
    → first_from q n (o + k) ≡ Option.map (λ i. o + i) (first_from p n k)
unfolding first_from
first_from-shift p q o zero k h = refl
first_from-shift p q o (suc n) k h =
    ground
      (arith, h k, first_from-shift p q o n (k + 1) h, congr_from q n n (o + k + 1) (o + (k + 1)))

first_from-congr :
    (p q : ℕ → Bool) (n k : ℕ)
    → ((i : ℕ) → i < k + n → q i ≡ p i)
    → first_from q n k ≡ first_from p n k
unfolding first_from
first_from-congr p q zero k h = refl
first_from-congr p q (suc n) k h =
    ground (arith, h k, first_from-congr p q n (k + 1) (λ i lt. h i (omega arith)))

local_lines-first_from :
    (n k source : ℕ) (ivt : Ivt)
    → k + n ≤ 32
    → local_lines n k source ivt ≡ pending_bank ivt local_base (first_from (bit_at source) n k)
unfolding local_lines first_from pending_bank
local_lines-first_from zero k source ivt h = refl
local_lines-first_from (suc n) k source ivt h =
    ground (arith, is_set_lem source k, local_lines-first_from n (k + 1) source ivt)

is_pending-high :
    (m : Mmio) (i : ℕ) → is_pending m (32 + i) ≡ bit_at (m.value (index irq_pending2)) i
is_pending-high m i = ground (arith, ap (λ (t : ℕ). bit_at (m.value 2) t) (rest i))
  where
    rest : (i : ℕ) → 32 + i - 32 ≡ i
    rest i = omega arith

first_pending :
    (m : Mmio)
    → IsWords m
    → first_from (is_pending m) 64 0
      ≡ or_other
          (lowest_set_bit (m.value (index irq_pending1)))
          (Option.map (λ i. 32 + i) (lowest_set_bit (m.value (index irq_pending2))))
first_pending m words =
    first_from-split (is_pending m) 32 32 0
    ∙ ap₂ or_other
        (first_from-congr (bit_at (m.value 1)) (is_pending m) 32 0 (λ i lt. ground arith)
          ∙ sym (lowest_set_bit-first_from (m.value 1) (words 1)))
        (first_from-shift (bit_at (m.value 2)) (is_pending m) 32 32 0 (is_pending-high m)
          ∙ ap (Option.map (λ i. 32 + i)) (sym (lowest_set_bit-first_from (m.value 2) (words 2))))

choose :
    (ivt : Ivt) (a : Option ℕ) (g : Bool) (b c : Option ℕ)
    → called (
        or_else
          (pending_bank ivt local_base a)
          (if g then or_else (pending_bank ivt 0 b) (pending_bank ivt 32 c) else next))
      ≡ Option.bind
          (or_other
            (Option.map (λ line. local_base + line) a)
            (if g then or_other b (Option.map (λ i. 32 + i) c) else none))
          (handler ivt)
unfolding pending_bank Option.bind
choose ivt (some line) g b c = refl
choose ivt none false b c = refl
choose ivt none true (some i) c = ap (handler ivt) (zero-add i)
choose ivt none true none none = refl
choose ivt none true none (some i) = refl

-- `dispatch` calls the handler of the pending source with the highest priority, and none if
-- nothing is pending: the timer lines of the core first, in their order, then the peripheral
-- interrupts in theirs, the latter only while the core's combined line is raised.
pub dispatch-highest :
    (irq : Irq) (core : ℕ)
    → IsWords irq.memory
    → dispatch irq core ≡ Option.bind (highest irq core) (handler irq.ivt)
unfolding dispatch serve highest
dispatch-highest irq core words =
    let source = irq.local.value (local_index core_irq_source0 + core) in
    rw
      (
        local_lines-first_from 4 0 source irq.ivt (omega arith),
        is_set_lem source 8 (omega arith),
        first_pending irq.memory words,
      )
      (choose irq.ivt (first_from (bit_at source) 4 0) (bit_at source 8)
        (lowest_set_bit (irq.memory.value 1)) (lowest_set_bit (irq.memory.value 2)))

handler-set_handler :
    (ivt : Ivt) (n : ℕ) (cb : Option Code)
    → n < max_handlers
    → (if ltb n max_handlers then (set_handler ivt n cb).handlers n else none) ≡ cb
unfolding set_handler
handler-set_handler ivt n cb lt = ground arith

-- After `install_IRQHandler` of a function for a number below 72, entering the IRQ vector of the
-- current level runs that function whenever its source is the highest pending one on core 0; the
-- installation itself changes no register and so not which source that is.
pub enter-install_irq_handler :
    (irq : Irq) (n : ℕ) (cb : Option Code)
    → IsWords irq.memory
    → n < max_handlers
    → highest irq 0 ≡ some n
    → let after = install_irq_handler irq n cb in
      (enter after (after.ivt.slots (vector_number cur_el_spx_irq)) ≡ cb)
      × (highest after 0 ≡ some n)
unfolding install_irq_handler enter highest Option.bind handler
enter-install_irq_handler irq n cb words lt e =
    let after = install_irq_handler irq n cb in
    (
      dispatch-highest after 0 words
          ∙ ap (λ (o : Option ℕ). Option.bind o (handler after.ivt)) e
          ∙ handler-set_handler irq.ivt n cb lt,
      e,
    )
