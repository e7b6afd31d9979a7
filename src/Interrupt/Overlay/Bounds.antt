-- ===== src/Interrupt/Overlay/Bounds.antt =====
-- Which words of memory the methods of an IRQ object on a region store into.
use rpi3b.Base.{
  ℕ, ◌+◌, ◌-◌, ◌≤◌, ◌<◌, ◌≡◌, ◌∙◌, refl, true, ltb, ltb→lt, Bool-cases, inl, inr, Option, none,
  some, List, [], ◌∷◌, arith,
}
use rpi3b.Interrupt.{Code, max_handlers, dispatch_trampoline}
use rpi3b.Interrupt.Overlay.{
  Pointers, Placed, set_line, set_handler, install_irq_handler, install_fiq_handler,
  install_vector_table, store_pointer, region_words, arm_local_max, irqs_all_max, put_pointer,
}
use rpi3b.Interrupt.Overlay.Steps.{
  Event, enable, disable, register_handler, raise, raise_local, step_placed, run_placed, index-lt,
}

-- The words behind the region are the same.
abbrev pub Outside : Placed → Option Placed → Type 0
Outside o none = Unit {0}
Outside o (some o') = (k : ℕ) → region_words ≤ k → o'.words k ≡ o.words k

module _ (p : Pointers) (o : Placed) where
  put_pointer-Outside :
      (at : ℕ) (cb : Option Code) → at + 1 < region_words → Outside o (some (put_pointer p o at cb))
  unfolding store_pointer
  put_pointer-Outside at cb lt k le = ground arith

  set_handler-Outside : (n : ℕ) (cb : Option Code) → Outside o (some (set_handler p o n cb))
  unfolding set_handler
  set_handler-Outside n cb k le = elim (Bool-cases (ltb n max_handlers)) [
    | inl inside ↦
        rw inside (put_pointer-Outside _ cb (omega (arith, ltb→lt n max_handlers inside)) k le)
    | inr outside ↦ rw outside refl
  ]

  set_line-Outside :
      (low high n : ℕ)
      → low < irqs_all_max
      → high < irqs_all_max
      → Outside o (set_line low high o n)
  unfolding set_line
  set_line-Outside low high n lt lt' = elim (Bool-cases (ltb n 32)) [
    | inl first ↦ rw first (λ k le. ground arith)
    | inr rest ↦ elim (Bool-cases (ltb (n - 32) 32)) [
      | inl second ↦ rw (rest, second) (λ k le. ground arith)
      | inr none_left ↦ rw (rest, none_left) tt
    ]
  ]

  raise_local-Outside : (i v : ℕ) → Outside o (step_placed p o (raise_local i v))
  unfolding step_placed
  raise_local-Outside i v = elim (Bool-cases (ltb i arm_local_max)) [
    | inl inside ↦ rw inside (λ k le. ground (arith, ltb→lt i arm_local_max inside))
    | inr outside ↦ rw outside (λ k le. refl)
  ]

step_placed-Outside : (p : Pointers) (o : Placed) (e : Event) → Outside o (step_placed p o e)
unfolding step_placed install_irq_handler install_fiq_handler install_vector_table
step_placed-Outside p o (enable n) = set_line-Outside p o 4 5 n (omega arith) (omega arith)
step_placed-Outside p o (disable n) = set_line-Outside p o 7 8 n (omega arith) (omega arith)
step_placed-Outside p o (register_handler n cb) = set_handler-Outside p o n cb
step_placed-Outside p o (Event.install_irq_handler n cb) = λ k le.
    put_pointer-Outside p (record (set_handler p o n cb) { active = true }) _
      (some dispatch_trampoline) (omega arith) k le
    ∙ set_handler-Outside p o n cb k le
step_placed-Outside p o (Event.install_fiq_handler n cb) =
    put_pointer-Outside p o _ cb (omega arith)
step_placed-Outside p o (Event.install_vector_table at) = λ k le. refl
step_placed-Outside p o (raise r v) = λ k le. ground (arith, index-lt r)
step_placed-Outside p o (raise_local i v) = raise_local-Outside p o i v

Outside-trans :
    (o o' : Placed) (o'' : Option Placed) → Outside o (some o') → Outside o' o'' → Outside o o''
Outside-trans o o' none h h' = tt
Outside-trans o o' (some o'') h h' = λ k le. h' k le ∙ h k le

run-Outside :
    (p : Pointers) (es : List Event) (o : Placed) (o' : Option Placed)
    → Outside o o'
    → Outside o (run_placed p o' es)
unfolding run_placed
run-Outside p es o none h = tt
run-Outside p [] o (some o') h = h
run-Outside p (e ∷ es) o (some o') h =
    run-Outside p es o (step_placed p o' e)
      (Outside-trans o o' (step_placed p o' e) h (step_placed-Outside p o' e))

pub run_placed-Outside :
    (p : Pointers) (o : Placed) (es : List Event) → Outside o (run_placed p (some o) es)
run_placed-Outside p o es = run-Outside p es o (some o) (λ k le. refl)
