-- ===== src/Tests/MappingRuns.antt =====
-- Runs of the detection and mapping of the peripherals.
use rpi3b.Base.{
  ℕ, Option, ◌^◌, ◌<◌, ◌≡◌, refl, none, some, [], ◌∷◌, length, arith, true, false, ◌==◌,
  if◌then◌else◌,
}
use rpi3b.Base.Text.{Bytes}
use rpi3b.Mapping.{
  Block, clock_block, map_address, periph_base, Region, Calls, page_base, construct,
  detect_periph_base, destroy, swap, move_construct,
}
use rpi3b.Mapping.Balance.{no_calls, released-all}
use rpi3b.Mapping.Base.{be32, detect-be32}
use rpi3b.Mapping.Life.{
  World, constructing, moving, destroying, Reach, here, next, count, count_mapping,
}
use rpi3b.Mapping.Factory.{Mapped, Reaches, map_block, map_block-Reaches}
use rpi3b.Gpio.{read}
use rpi3b.Program.{main}
use rpi3b.Program.Blink.{main-pins}
use rpi3b.Tests.Data.{patterned}

detect-be32_example :
    (detect_periph_base (some (be32 0x7E000000 (be32 0xFE000000 (1 ∷ [])))) ≡ 0xFE000000)
    × (detect_periph_base (some (be32 0x7E000000 (be32 0 (be32 0xFE000000 (1 ∷ []))))) ≡ 0xFE000000)
    × (detect_periph_base none ≡ 0x3F000000)
    × ((short : Bytes) → length short < 8 → detect_periph_base (some short) ≡ 0x3F000000)
detect-be32_example =
    detect-be32 0x7E000000 0xFE000000 (1 ∷ []) (omega arith) (omega arith) (λ e. omega arith)

abbrev calls : Calls
calls = record { opened = []; closed = []; mapped = []; unmapped = []; requested = [] }

-- A block at the begin of a page.
abbrev mapped_region : Region
mapped_region = record { fd = some 3; map = some 0x7f0000; offset = 0; length = 24 }

abbrev emptied : World
emptied = record {
  objects = [];
  calls = record {
    opened = 3 ∷ [];
    closed = 3 ∷ [];
    mapped = (0x7f0000, 24) ∷ [];
    unmapped = (0x7f0000, 24) ∷ [];
    requested = (0x3F200000, 24) ∷ [];
  };
}

emptied_reached : Reach no_calls emptied
unfolding construct destroy page_base move_construct swap
emptied_reached =
    next
      (next
        (next
          (next here (constructing 4096 (some 3) (some 0x7f0000) 0x3F200000 24 (λ e. ground arith)))
          (moving [] [] mapped_region refl))
        (destroying [] (record { fd = none; map = none; offset = 0; length = 0 } ∷ []) mapped_region
          refl))
      (destroying [] [] (record { fd = none; map = none; offset = 0; length = 0 }) refl)

released-all_example :
    (count 3 emptied.calls.closed ≡ count 3 emptied.calls.opened)
    × (count_mapping 0x7f0000 24 emptied.calls.unmapped
        ≡ count_mapping 0x7f0000 24 emptied.calls.mapped)
released-all_example = released-all 3 0x7f0000 24 emptied_reached refl

main-pins_example :
    ((main true 0x3F000000 4096 (some 3) (some 0x7f0000) calls patterned).returned ≡ 0)
    × (read (main true 0x3F000000 4096 (some 3) (some 0x7f0000) calls patterned).gpio 17
        ≡ (if 17 == 17 then 1 else read patterned 17))
    × ((main true 0x3F000000 4096 (some 3) none calls patterned).returned ≡ 1)
    × ((main true 0x3F000000 4096 none none calls patterned).returned ≡ 1)
    × ((main true 0x3F000000 4096 (some 3) none calls patterned).gpio ≡ patterned)
    × ((main true 0x3F000000 4096 none none calls patterned).gpio ≡ patterned)
    × ((main false 0x3F000000 4096 none none calls patterned).gpio ≡ patterned)
main-pins_example = main-pins 0x3F000000 4096 3 0x7f0000 17 none none calls patterned (omega arith)

map_block-Reaches_example :
    ((m : Mapped) × ((map_block clock_block none none (2 ^ 12) (some 3) (some 0x7f0000) calls).0
        ≡ some m)
      × Reaches m (2 ^ 12) 0x7f0000 (page_base (2 ^ 12) 0x3F101070) 0x3F101070 24)
    × (map_block clock_block none none (2 ^ 12) none none calls ≡ (none, calls, some 0x3F000000))
    × (let lost = map_block clock_block none none (2 ^ 12) (some 3) none calls in
        (lost.0 ≡ none)
        × (lost.1.opened ≡ 3 ∷ [])
        × (lost.1.closed ≡ 3 ∷ [])
        × (lost.1.mapped ≡ []))
    × ((next : Block) (opened first second : Option ℕ)
        → let (m, calls', cached') = map_block clock_block none none (2 ^ 12) opened first calls in
          map_block next none cached' (2 ^ 12) (some 3) second calls'
          ≡ map_block next none none (2 ^ 12) (some 3) second calls')
unfolding map_address periph_base detect_periph_base
map_block-Reaches_example =
    map_block-Reaches clock_block none none 12 3 0x7f0000 none calls (omega arith) (omega arith)
