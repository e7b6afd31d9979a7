-- ===== src/Tests/DevicesRuns.antt =====
-- Runs over the registers of the bare-metal program, and of the interrupt-driven transport.
use rpi3b.Base.{ℕ, ◌≡◌, refl, none, some, arith}
use rpi3b.Boot.{kmain, ksecondary, core_timer_start, smp_release_secondaries, prepare}
use rpi3b.Devices.{arm_local, uart, interrupts, bcm_periph_base, register_address}
use rpi3b.Devices.Apart.{register_address-apart}
use rpi3b.Devices.Reached.{kmain-devices}
use rpi3b.Mmu.Identity.{device_page, normal_page}
use rpi3b.Mmu.Walk.{translate}
use rpi3b.Tests.BootRuns.{board, zeros, powered_on, table_memory, table_memory-l1, table_memory-l2}

register_address-apart_example : (interrupts ≡ interrupts) × (◌≡◌ {A = ℕ} 3 3)
register_address-apart_example =
    register_address-apart interrupts interrupts 3 3 (omega arith) (omega arith) refl

kmain-devices_example :
    let at = register_address bcm_periph_base arm_local 26 in
    (translate ((kmain board zeros zeros powered_on).system 0) table_memory at
      ≡ some (device_page at))
    × (translate
          ((ksecondary board 2 (kmain board zeros zeros powered_on)).system 2)
          table_memory
          at
        ≡ some (device_page at))
    × (translate
          ((kmain board zeros zeros powered_on).system 0)
          table_memory
          (register_address 0x20000000 uart 0)
        ≡ some (normal_page 0x20201000))
    × (translate
          ((kmain board zeros zeros powered_on).system 0)
          table_memory
          (register_address 0xFE000000 uart 0)
        ≡ none)
unfolding kmain core_timer_start smp_release_secondaries prepare
kmain-devices_example =
    kmain-devices board zeros zeros powered_on 2 table_memory arm_local 26 (omega arith)
      (omega arith) (omega arith) table_memory-l1 table_memory-l2
