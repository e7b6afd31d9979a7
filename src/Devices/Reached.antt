-- ===== src/Devices/Reached.antt =====
-- What the translation that the kernel turns on does with the registers' addresses.
use rpi3b.Base.{ℕ, ◌<◌, ◌≤◌, ◌≡◌, ◌∙◌, arith, some, none}
use rpi3b.Boot.{Board, Machine, kmain, ksecondary}
use rpi3b.Boot.Ready.{kmain-translate}
use rpi3b.Devices.{Device, uart, device_words, bcm_periph_base, register_address}
use rpi3b.Mmio.{Mmio}
use rpi3b.Mmu.Identity.{Holds, IsPageBase, memory_map, device_page, normal_page}
use rpi3b.Mmu.Walk.{translate}

register_address-device :
    (d : Device) (i : ℕ)
    → i < device_words d
    → (0x3F000000 ≤ register_address bcm_periph_base d i)
      × (register_address bcm_periph_base d i < 0x80000000)
unfolding register_address
register_address-device d i lt = ground arith

memory_map-device :
    (va : ℕ) → 0x3F000000 ≤ va → va < 0x80000000 → memory_map va ≡ some (device_page va)
memory_map-device va le lt = ground arith

-- After `kmain`, on core 0, and after `ksecondary` on any core, when the tables that `kmain` has
-- built stand in memory at page-aligned addresses: each register that the drivers overlay with no
-- region, and each that the console uses, is reached at its own address as Device-nGnRnE memory,
-- with the default bases. With `BCM_PERIPH_BASE` 0x20000000 instead, the console's data register is
-- normal, cacheable memory, and with 0xFE000000 it is not mapped.
pub kmain-devices :
    (b : Board) (memory local : Mmio) (m : Machine) (core : ℕ) (read : ℕ → ℕ) (d : Device) (i : ℕ)
    → let ready = kmain b memory local m in
      let reached = translate (ready.system 0) read in
      let reached' = translate ((ksecondary b core ready).system core) read in
      let at = register_address bcm_periph_base d i in
      i < device_words d
      → IsPageBase b.l1_at
      → IsPageBase b.l2_at
      → Holds read b.l1_at ready.tables.l1
      → Holds read b.l2_at ready.tables.l2
      → (reached at ≡ some (device_page at))
        × (reached' at ≡ some (device_page at))
        × (reached (register_address 0x20000000 uart 0) ≡ some (normal_page 0x20201000))
        × (reached (register_address 0xFE000000 uart 0) ≡ none)
unfolding register_address
kmain-devices b memory local m core read d i lt p q h k =
    let at = register_address bcm_periph_base d i in
    let (le, lt') = register_address-device d i lt in
    let one = λ (va : ℕ). kmain-translate b memory local m core read va p q h k in
    (
      (one at).0 ∙ memory_map-device at le lt',
      (one at).1 ∙ memory_map-device at le lt',
      (one 0x20201000).0,
      (one 0xFE201000).0,
    )
