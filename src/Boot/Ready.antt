-- ===== src/Boot/Ready.antt =====
-- What `kmain` and `ksecondary` leave when their threads go on to print under the lock.
use mathlib.Core.Option
use rpi3b.Base.{ℕ, ◌+◌, ◌≡◌, refl, ap, ◌∙◌, ==_refl, true, false, some, arith}
use rpi3b.Boot.{
  Board, Machine, new_irq, timer_code, irq_handler_c, on_irq, change, prepare, kmain, ksecondary,
  core_timer_start, smp_release_secondaries,
}
use rpi3b.Interrupt.{
  local_base, dispatch, handler, register_handler, set_handler, install_vector_table, Irq,
}
use rpi3b.Interrupt.Dispatch.{highest, dispatch-highest}
use rpi3b.Interrupt.Lowest.{first_from}
use rpi3b.Interrupt.Registers.{local_index, core_irq_source0, source_bit, cntpsirq, cntpnsirq}
use rpi3b.Mmio.{Mmio, IsWords}
use rpi3b.Mmu.{mmu_enable}
use rpi3b.Mmu.Identity.{Holds, IsPageBase, memory_map, translate-build}
use rpi3b.Mmu.Walk.{translate}
use rpi3b.Word.{bit_at}

-- After `kmain`, on core 0, and after `ksecondary` on any core, an address is translated as the
-- memory map says, when the tables that `kmain` has built stand in memory at page-aligned addresses:
-- below 0x3F000000 to itself as normal memory, from there below 0x80000000 to itself as device
-- memory, and above not at all.
pub kmain-translate :
    (b : Board) (memory local : Mmio) (m : Machine) (core : ℕ) (read : ℕ → ℕ) (va : ℕ)
    → let ready = kmain b memory local m in
      IsPageBase b.l1_at
      → IsPageBase b.l2_at
      → Holds read b.l1_at ready.tables.l1
      → Holds read b.l2_at ready.tables.l2
      → (translate (ready.system 0) read va ≡ memory_map va)
        × (translate ((ksecondary b core ready).system core) read va ≡ memory_map va)
unfolding kmain prepare ksecondary core_timer_start smp_release_secondaries
kmain-translate b memory local m core read va p q h k = (
  translate-build b.l1_at b.l2_at m.tables (m.system 0) read va p q h k,
  rw (==_refl core) (
      translate-build b.l1_at b.l2_at m.tables
        (change m.system 0 (mmu_enable b.l1_at (m.system 0)) core) read va p q h k),
)

highest-timer :
    (irq : Irq) (core : ℕ)
    → bit_at (irq.local.value (local_index core_irq_source0 + core)) (source_bit cntpsirq) ≡ false
    → bit_at (irq.local.value (local_index core_irq_source0 + core)) (source_bit cntpnsirq) ≡ true
    → highest irq core ≡ some (local_base + source_bit cntpnsirq)
unfolding highest first_from
highest-timer irq core clear set = ground arith

dispatch-timer :
    (irq : Irq) (core : ℕ)
    → IsWords irq.memory
    → bit_at (irq.local.value (local_index core_irq_source0 + core)) (source_bit cntpsirq) ≡ false
    → bit_at (irq.local.value (local_index core_irq_source0 + core)) (source_bit cntpnsirq) ≡ true
    → irq.ivt.handlers (local_base + source_bit cntpnsirq) ≡ some timer_code
    → dispatch irq core ≡ some timer_code
unfolding handler Option.bind
dispatch-timer irq core words clear set installed =
    dispatch-highest irq core words
    ∙ ap (λ (o : Option.Option ℕ). Option.bind o (handler irq.ivt))
        (highest-timer irq core clear set)
    ∙ installed

-- The registers of the two controllers, as the hardware has set them since.
abbrev pub raised : Mmio → Mmio → Irq → Irq
raised memory local irq = record irq { memory = memory; local = local }

-- After `kmain`, whatever the registers of the interrupt controllers hold since, a core that takes
-- an IRQ while its physical non-secure timer line is raised, and the secure one is not, runs
-- `timer_isr`, whichever peripheral interrupts are pending too.
pub irq_handler_c-kmain :
    (b : Board) (memory local : Mmio) (m : Machine) (memory' local' : Mmio) (core : ℕ)
    → IsWords memory'
    → bit_at (local'.value (local_index core_irq_source0 + core)) (source_bit cntpsirq) ≡ false
    → bit_at (local'.value (local_index core_irq_source0 + core)) (source_bit cntpnsirq) ≡ true
    → irq_handler_c (on_irq (raised memory' local') (kmain b memory local m).active) core
      ≡ some timer_code
unfolding kmain prepare core_timer_start smp_release_secondaries irq_handler_c register_handler
    set_handler install_vector_table
irq_handler_c-kmain b memory local m memory' local' core words clear set =
    let booted =
      register_handler (install_vector_table (new_irq memory local) b.vector_table)
        (local_base + source_bit cntpnsirq) (some timer_code) in
    dispatch-timer (raised memory' local' booted) core words clear set refl
