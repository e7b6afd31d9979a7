-- ===== src/Boot.antt =====
-- Start-up and the timer's interrupt: freestanding/kmain.cpp, freestanding/exceptions.cpp and
-- freestanding/smp.cpp. What the assembler instructions read is given by a `Board`; what they set
-- is part of the state.
pub mod Ready
pub mod Ticks
use rpi3b.Base.{
  ℕ, zero, suc, ◌+◌, ◌*◌, ◌/◌, ◌%◌, ◌^◌, ◌==◌, if◌then◌else◌, bit_and, Bool, true, false, Option,
  none, some, List, [], ◌∷◌, ◌++◌,
}
use rpi3b.Base.Text.{Bytes, codes}
use rpi3b.Console.{uart_init, uart_puts, uart_dec, uart_hex}
use rpi3b.Devices.{bcm_periph_base, new_interrupts, announce}
use rpi3b.Interrupt.{
  Code, user, Irq, Ivt, local_base, register_handler, dispatch, install_vector_table,
}
use rpi3b.Interrupt.Registers.{local_index, core_timer_irqcntl0, source_bit, cntpnsirq}
use rpi3b.Mmio.{Mmio, or_assign, update}
use rpi3b.Mmu.{Tables, SystemRegisters, mmu_build_tables, mmu_enable}
use rpi3b.Smp.{Lock, uart_enable_lock}
use rpi3b.Word.{◌<<◌}

-- `CNTFRQ_EL0`, `CurrentEL` and the linker's addresses.
pub record Board : Type 0 where
  pub freq : ℕ
  pub el : ℕ
  pub l1_at : ℕ
  pub l2_at : ℕ
  pub vector_table : ℕ
  pub entry : ℕ

-- The generic timer of a core, and whether the core takes interrupts.
pub record Timer : Type 0 where
  pub tval : ℕ
  pub ctl : ℕ
  pub unmasked : Bool

pub record Machine : Type 0 where
  pub uart : Mmio
  -- What the console has sent.
  pub console : Bytes
  pub tables : Tables
  pub system : ℕ → SystemRegisters
  -- `VBAR_EL1` of each core.
  pub vbar : ℕ → Option ℕ
  -- `g_active`
  pub active : Option Irq
  pub lock : Lock
  -- The 64-bit words that the secondary cores poll, by address.
  pub mailbox : ℕ → ℕ
  pub timer : ℕ → Timer
  -- `g_ticks`
  pub ticks : ℕ → ℕ

-- The function `timer_isr`, as a handler.
abbrev pub timer_code : Code
timer_code = user 0

abbrev pub interval : ℕ → ℕ
interval freq = freq / 5

abbrev pub change {ℓ} : {A : Type ℓ} → (ℕ → A) → ℕ → A → ℕ → A
change f i a j = if i == j then a else f j

abbrev pub say : Machine → Bytes → Machine
say m out = record m { console = m.console ++ out }

-- The handler that runs on a core that takes an IRQ.
unfoldable pub irq_handler_c : Option Irq → ℕ → Option Code
irq_handler_c none core = none
irq_handler_c (some irq) core = dispatch irq core

unfoldable pub timer_line : ℕ → ℕ → Bytes
timer_line c n =
    uart_puts (codes "[core ")
    ++ (uart_dec c ++ (uart_puts (codes "] timer tick #") ++ (uart_dec n ++ b'\n' ∷ [])))

-- `timer_isr` on a core, between taking the lock and giving it back, and the re-arming.
unfoldable pub timer_isr : ℕ → ℕ → Machine → Machine
timer_isr freq c m =
    let n = (m.ticks c + 1) % 2 ^ 64 in
    let counted = record m { ticks = change m.ticks c n } in
    let said = say counted (timer_line c n) in
    record said { timer = change said.timer c (record (said.timer c) { tval = interval freq }) }

abbrev pub on_irq : (Irq → Irq) → Option Irq → Option Irq
on_irq f none = none
on_irq f (some irq) = some (f irq)

-- The register block is the one at 0x40000000 that `IRQ` overlays too.
unfoldable pub core_timer_start : ℕ → ℕ → Machine → Machine
core_timer_start freq core m =
    let route = λ (irq : Irq). record irq {
      local =
          or_assign irq.local (local_index core_timer_irqcntl0 + core) (1 << source_bit cntpnsirq);
    } in
    record m {
      active = on_irq route m.active;
      timer = change m.timer core (record { tval = interval freq; ctl = 1; unmasked = true });
    }

-- `kReleaseAddr`
unfoldable pub smp_release_secondaries : ℕ → Machine → Machine
smp_release_secondaries entry m = record m {
  mailbox = update (update (update m.mailbox 0xe0 entry) 0xe8 entry) 0xf0 entry;
}

-- `operator new` of `IVT`: the tables in the region, or with none the static ones, which are zero.
abbrev pub new_ivt : Option Ivt → Ivt
new_ivt none = record { slots = λ i. none; handlers = λ i. none }
new_ivt (some region) = region

-- A new `IRQ` over the blocks of the two controllers, with no region.
abbrev pub new_irq : Mmio → Mmio → Irq
new_irq memory local = record {
  memory = memory;
  ivt = new_ivt none;
  local = local;
  vbar = none;
  active = false;
}

-- What a call of `printf` sends; the calls that are made here are all defined.
abbrev pub printed : Option Bytes → Bytes
printed none = []
printed (some out) = out

-- `kmain` until `uart_enable_lock`. The constructor of `IRQ` prints the registers' addresses.
unfoldable pub prepare : Board → Mmio → Mmio → Machine → Machine
prepare b memory local m =
    let m₁ = record m { uart = uart_init m.uart } in
    let m₂ =
      say m₁ (uart_puts (codes "\n=== bcm2837 bare-metal: AArch64 IVT / IRQ / MMU / SMP ===\n")) in
    let m₃ = say m₂ (uart_puts (codes "core 0 running at EL") ++ (uart_dec b.el ++ b'\n' ∷ [])) in
    let m₄ = record m₃ { tables = mmu_build_tables b.l2_at m₃.tables } in
    let m₅ = record m₄ { system = change m₄.system 0 (mmu_enable b.l1_at (m₄.system 0)) } in
    let m₆ =
      say m₅ (uart_puts (codes "MMU enabled (RAM cacheable inner-shareable, MMIO device)\n")) in
    let announced = say m₆ (printed (announce (new_interrupts bcm_periph_base none))) in
    let irq = install_vector_table (new_irq memory local) b.vector_table in
    let m₇ = say announced (
      uart_puts (codes "VBAR_EL1 -> vector_table @ ") ++ (uart_hex b.vector_table ++ b'\n' ∷ [])) in
    let registered = register_handler irq (local_base + source_bit cntpnsirq) (some timer_code) in
    let m₈ = record m₇ { active = some registered; vbar = change m₇.vbar 0 irq.vbar } in
    say m₈ (
      uart_puts (codes "CNTFRQ=")
      ++ (uart_dec b.freq ++ uart_puts (codes "  (~5 IRQs/s per core)\n")))

-- `kmain` until its thread calls `uart_lock`, from where Smp goes on.
unfoldable pub kmain : Board → Mmio → Mmio → Machine → Machine
kmain b memory local m =
    let ready = prepare b memory local m in
    let locked = record ready { lock = uart_enable_lock ready.lock } in
    let released = smp_release_secondaries b.entry locked in core_timer_start b.freq 0 released

-- `ksecondary` on a core, until its thread calls `uart_lock`.
unfoldable pub ksecondary : Board → ℕ → Machine → Machine
ksecondary b core m =
    let translated = record m {
      system = change m.system core (mmu_enable b.l1_at (m.system core));
    } in
    let vectored = record translated { vbar = change translated.vbar core (some b.vector_table) } in
    core_timer_start b.freq core vectored

-- `bad_exception_c` until it halts.
unfoldable pub bad_exception_c : ℕ → ℕ → ℕ → Bytes
bad_exception_c kind esr elr =
    let k = bit_and kind 3 in
    let name =
      if k == 0
      then codes "SYNC"
      else if k == 1
      then codes "IRQ"
      else if k == 2
      then codes "FIQ"
      else codes "SERROR" in
    uart_puts (codes "\n[EXCEPTION] ")
    ++ (uart_puts name
        ++ (uart_puts (codes "  ESR=")
            ++ (uart_hex esr
                ++ (uart_puts (codes "  ELR=")
                    ++ (uart_hex elr ++ uart_puts (codes "\n[HALTED]\n"))))))
