-- ===== src/Boot/Ticks.antt =====
-- The timer's interrupts, in whatever order the cores take them.
use mathlib.Core.List.{append_assoc, append-nil}
use rpi3b.Base.{
  ℕ, refl, ◌+◌, ◌%◌, ◌^◌, ◌≡◌, sym, ap, ◌∙◌, ◌==◌, if◌then◌else◌, List, [], ◌∷◌, ◌++◌, arith,
}
use rpi3b.Base.Text.{Bytes, codes}
use rpi3b.Console.{uart_puts, uart_dec}
use rpi3b.Boot.{Machine, timer_isr, timer_line}

-- The runs of `timer_isr` on these cores, one after the other: the lock keeps them apart.
abbrev pub run_isrs : ℕ → List ℕ → Machine → Machine
run_isrs freq [] m = m
run_isrs freq (c ∷ cores) m = run_isrs freq cores (timer_isr freq c m)

abbrev pub count : ℕ → List ℕ → ℕ
count c [] = 0
count c (d ∷ cores) = (if d == c then 1 else 0) + count c cores

-- The line that tells a core and a number of interrupts.
abbrev pub tick_text : ℕ → ℕ → Bytes
tick_text core number =
    codes "[core " ++ (uart_dec core ++ (codes "] timer tick #" ++ (uart_dec number ++ codes "\n")))

timer_line_lem : (core number : ℕ) → timer_line core number ≡ tick_text core number
unfolding timer_line uart_puts
timer_line_lem core number = refl

-- The line for each interrupt of a row, where `seen` came before: it tells the core, and how many
-- interrupts that core has had, from `first` on.
abbrev pub lines : (ℕ → ℕ) → List ℕ → List ℕ → Bytes
lines first seen [] = []
lines first seen (c ∷ cores) =
    tick_text c ((first c + count c seen + 1) % 2 ^ 64) ++ lines first (c ∷ seen) cores

-- The state when `seen` have been taken.
record Counted (first : ℕ → ℕ) (seen : List ℕ) (m : Machine) : Type 0 where
  counts : (c : ℕ) → m.ticks c % 2 ^ 64 ≡ (first c + count c seen) % 2 ^ 64

timer_isr-Counted :
    (first : ℕ → ℕ) (seen : List ℕ) (m : Machine) (freq c : ℕ)
    → Counted first seen m
    → Counted first (c ∷ seen) (timer_isr freq c m)
unfolding timer_isr
timer_isr-Counted first seen m freq c v = record { counts = λ d. ground (arith, v.counts d) }

timer_isr-console :
    (first : ℕ → ℕ) (seen : List ℕ) (m : Machine) (freq c : ℕ)
    → Counted first seen m
    → (timer_isr freq c m).console
      ≡ m.console ++ tick_text c ((first c + count c seen + 1) % 2 ^ 64)
unfolding timer_isr
timer_isr-console first seen m freq c v =
    let n : (m.ticks c + 1) % 2 ^ 64 ≡ (first c + count c seen + 1) % 2 ^ 64 =
      omega (arith, v.counts c) in
    ap (λ (t : ℕ). m.console ++ timer_line c t) n
    ∙ ap (λ (t : Bytes). m.console ++ t) (timer_line_lem c ((first c + count c seen + 1) % 2 ^ 64))

run_isrs-from :
    (freq : ℕ) (cores : List ℕ) (first : ℕ → ℕ) (seen : List ℕ) (m : Machine)
    → Counted first seen m
    → ((run_isrs freq cores m).console ≡ m.console ++ lines first seen cores)
      × ((c : ℕ)
          → (run_isrs freq cores m).ticks c % 2 ^ 64
            ≡ (first c + count c seen + count c cores) % 2 ^ 64)
run_isrs-from freq [] first seen m v = (sym (append-nil m.console), λ c. omega (arith, v.counts c))
run_isrs-from freq (d ∷ cores) first seen m v =
    let w = timer_isr-Counted first seen m freq d v in
    let (said, counted) = run_isrs-from freq cores first (d ∷ seen) (timer_isr freq d m) w in
    let line = tick_text d ((first d + count d seen + 1) % 2 ^ 64) in
    (
      said
          ∙ ap (λ (t : Bytes). t ++ lines first (d ∷ seen) cores)
              (timer_isr-console first seen m freq d v)
          ∙ append_assoc m.console line (lines first (d ∷ seen) cores),
      λ c. ground (arith, counted c),
    )

-- After timer interrupts on cores in any order, what the console has sent since is one line for
-- each, in that order: "[core ", the core in decimal, "] timer tick #", the number of interrupts that
-- this core has had by then, modulo 2 ^ 64, in decimal, and the end of the line; and the count of each core has grown by the number of interrupts that it had,
-- modulo 2 ^ 64.
pub run_isrs-lines :
    (freq : ℕ) (cores : List ℕ) (m : Machine)
    → ((run_isrs freq cores m).console ≡ m.console ++ lines m.ticks [] cores)
      × ((c : ℕ) → (run_isrs freq cores m).ticks c % 2 ^ 64 ≡ (m.ticks c + count c cores) % 2 ^ 64)
run_isrs-lines freq cores m =
    let (said, counted) =
      run_isrs-from freq cores m.ticks [] m (record { counts = λ c. omega arith }) in
    (said, λ c. omega (arith, counted c))
