-- ===== src/Tests/BootRuns.antt =====
-- Runs of the start-up, of the translation tables and of the console lock.
use rpi3b.Base.{
  ℕ, ◌+◌, ◌-◌, ◌*◌, ◌/◌, ◌%◌, ◌^◌, ◌≡◌, ◌≢◌, ◌⊎◌, refl, false, none, some, [], ◌∷◌, ◌++◌, ltb,
  if◌then◌else◌, arith,
}
use rpi3b.Boot.{Board, Machine, timer_code, irq_handler_c, on_irq, kmain}
use rpi3b.Boot.Ready.{raised, irq_handler_c-kmain}
use rpi3b.Boot.Ticks.{run_isrs, lines, count, run_isrs-lines}
use rpi3b.Mmio.{Mmio, update}
use rpi3b.Mmu.{Tables, SystemRegisters, mmu_build_tables, mmu_enable}
use rpi3b.Mmu.Identity.{Holds, memory_map, translate-build}
use rpi3b.Mmu.Walk.{translate}
use rpi3b.Smp.{
  State, Step, Reach, next, here, unmask, put, thread, waiting, start, attempt, uart_lock_round,
  uart_enable_lock,
}
use rpi3b.Smp.Deadlock.{
  Deadlocked, interrupted, Reach-interrupted, Deadlocked-reached, released-or-Deadlocked,
}
use rpi3b.Smp.Exclusion.{IsExclusive, Reach-IsExclusive}
use rpi3b.Word.{bit_at}

abbrev pub no_tables : Tables
no_tables = record { l1 = λ i. 0; l2 = λ i. 0 }

abbrev pub reset_registers : SystemRegisters
reset_registers = record { mair_el1 = 0; tcr_el1 = 0; ttbr0_el1 = 0; sctlr_el1 = 0x30d00800 }

-- Memory with the two tables in it.
pub table_memory : ℕ → ℕ
table_memory a =
    let t = mmu_build_tables 0x91000 no_tables in
    if ltb a 0x91000 then t.l1 ((a - 0x90000) / 8) else t.l2 ((a - 0x91000) / 8)

pub table_memory-l1 : Holds table_memory 0x90000 (mmu_build_tables 0x91000 no_tables).l1
unfolding table_memory
table_memory-l1 i lt =
    let e : (0x90000 + 8 * i - 0x90000) / 8 ≡ i = omega arith in ground (arith, e)

pub table_memory-l2 : Holds table_memory 0x91000 (mmu_build_tables 0x91000 no_tables).l2
unfolding table_memory
table_memory-l2 i lt =
    let e : (0x91000 + 8 * i - 0x91000) / 8 ≡ i = omega arith in ground (arith, e)

translate-build_example :
    translate (mmu_enable 0x90000 reset_registers) table_memory 0x3F201000 ≡ memory_map 0x3F201000
translate-build_example =
    translate-build 0x90000 0x91000 no_tables reset_registers table_memory 0x3F201000 (omega arith)
      (omega arith) table_memory-l1 table_memory-l2

Reach-IsExclusive_example : IsExclusive (interrupted 2)
Reach-IsExclusive_example = Reach-IsExclusive (Reach-interrupted 2 (omega arith))

-- Another core goes on.
abbrev others_go_on : State
others_go_on = record (interrupted 2) { phase = put (interrupted 2).phase (thread 1) waiting }

others_reached : Reach (interrupted 2) others_go_on
unfolding interrupted start attempt uart_lock_round uart_enable_lock
others_reached = next here (unmask 1 (omega arith) refl)

Deadlocked-reached_example : (s : State) × Reach start s × Deadlocked 3 s
Deadlocked-reached_example = Deadlocked-reached 3 (omega arith)

interrupted-busy : (interrupted 2).lock.g_lock ≢ 0
unfolding interrupted start attempt uart_lock_round uart_enable_lock
interrupted-busy e = absurd (omega arith)

released-or-Deadlocked_example :
    ((t : State) × Step (interrupted 2) t × (t.lock.g_lock ≡ 0))
    ⊎ ((c : ℕ) × Deadlocked c (interrupted 2))
released-or-Deadlocked_example =
    released-or-Deadlocked (Reach-interrupted 2 (omega arith)) interrupted-busy

abbrev pub board : Board
board = record {
  freq = 62500000;
  el = 1;
  l1_at = 0x90000;
  l2_at = 0x91000;
  vector_table = 0x80800;
  entry = 0x80000;
}

abbrev pub zeros : Mmio
zeros = record { value = λ i. 0; stores = [] }

abbrev timer_raised : Mmio
timer_raised = record { value = update (λ i. 0) 26 2; stores = [] }

abbrev pub powered_on : Machine
powered_on = record {
  uart = zeros;
  console = [];
  tables = no_tables;
  system = λ c. reset_registers;
  vbar = λ c. none;
  active = none;
  lock = record { g_lock = 0; g_locking = false };
  mailbox = λ a. 0;
  timer = λ c. record { tval = 0; ctl = 0; unmasked = false };
  ticks = λ c. 0;
}

irq_handler_c-kmain_example :
    irq_handler_c (on_irq (raised zeros timer_raised) (kmain board zeros zeros powered_on).active) 2
    ≡ some timer_code
unfolding bit_at
irq_handler_c-kmain_example =
    irq_handler_c-kmain board zeros zeros powered_on zeros timer_raised 2 (λ i. omega arith) refl
      refl

run_isrs-lines_example :
    ((run_isrs 62500000 (1 ∷ 0 ∷ 1 ∷ []) powered_on).console
      ≡ [] ++ lines (λ c. 0) [] (1 ∷ 0 ∷ 1 ∷ []))
    × ((c : ℕ)
        → (run_isrs 62500000 (1 ∷ 0 ∷ 1 ∷ []) powered_on).ticks c % 2 ^ 64
          ≡ (0 + count c (1 ∷ 0 ∷ 1 ∷ [])) % 2 ^ 64)
run_isrs-lines_example = run_isrs-lines 62500000 (1 ∷ 0 ∷ 1 ∷ []) powered_on
