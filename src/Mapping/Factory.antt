-- ===== src/Mapping/Factory.antt =====
-- `class Mapped` and the factories `map_gpio`, `map_clock`, `map_i2c`, `map_spi` and `map_gpiomem`
-- of src/inc/mmio.hpp.
use rpi3b.Base.{ℕ, ◌+◌, ◌-◌, ◌*◌, ◌%◌, ◌^◌, ◌≤◌, ◌<◌, ◌≡◌, refl, ap, arith, Option, none, some, ◌∷◌}
use rpi3b.Base.Text.{Bytes}
use rpi3b.Mapping.{
  Block, gpio_block, clock_block, i2c_block, spi_block, map_address, periph_base, Region, Made,
  made, open_failed, mmap_failed, Calls, construct, get, page_base,
}
use rpi3b.Mapping.Page.{construct_lem}

-- `sizeof` of the register blocks.
abbrev pub block_size : Block → ℕ
block_size gpio_block = 4 * 45
block_size clock_block = 4 * 6
block_size i2c_block = 4 * 8
block_size spi_block = 4 * 6

-- A mapping, and the address at which the driver over it finds its registers.
pub record Mapped : Type 0 where
  pub io : Region
  pub drv : Option ℕ

-- The constructor, on what the one of `MMIO` did; `none` is an exception.
unfoldable pub new_mapped : Made × Calls → Option Mapped × Calls
new_mapped (made io, calls) = (some (record { io = io; drv = get io }), calls)
new_mapped (open_failed, calls) = (none, calls)
new_mapped (mmap_failed, calls) = (none, calls)

-- The factory for a block of a device under /dev/mem, with the file of the device tree, the static
-- variable of `periph_base`, the page size, and the answers of `open` and `mmap`.
unfoldable pub map_block :
    Block
    → Option Bytes
    → Option ℕ
    → ℕ
    → Option ℕ
    → Option ℕ
    → Calls
    → Option Mapped × Calls × Option ℕ
map_block block file cached pg opened mapping calls =
    let (base, cached') = periph_base file 0 cached in
    let (m, calls') =
      new_mapped (construct pg opened mapping (map_address base block) (block_size block) calls) in
    (m, calls', cached')

-- The device /dev/gpiomem shows the GPIO block at offset 0.
unfoldable pub map_gpiomem : ℕ → Option ℕ → Option ℕ → Calls → Option Mapped × Calls
map_gpiomem pg opened mapping calls =
    new_mapped (construct pg opened mapping 0 (block_size gpio_block) calls)

-- The mapping begins at a page; the driver's registers are in it, where the mapping shows the physical address `phys`, and
-- the mapping ends with the block.
pub record Reaches (m : Mapped) (pg at begin phys size : ℕ) : Type 0 where
  pub aligned : begin % pg ≡ 0
  pub drv_at : ℕ
  pub driven : m.drv ≡ some drv_at
  pub inside : at ≤ drv_at
  pub shown : begin + (drv_at - at) ≡ phys
  pub whole : drv_at + size ≡ at + m.io.length

map_block-made :
    (k fd at phys size : ℕ) (calls : Calls)
    → k ≤ 64
    → phys < 2 ^ 64
    → (m : Mapped) × ((new_mapped (construct (2 ^ k) (some fd) (some at) phys size calls)).0
        ≡ some m)
      × Reaches m (2 ^ k) at (page_base (2 ^ k) phys) phys size
unfolding new_mapped get
map_block-made k fd at phys size calls h lt =
    let (r, e, aligned, ends, got, below, held, mapped) =
      construct_lem k fd at phys size calls h lt in
    (
      record { io = r; drv = get r },
      ap (λ (x : Made × Calls). (new_mapped x).0) e,
      record {
        aligned = aligned;
        drv_at = at + (phys - page_base (2 ^ k) phys);
        driven = got;
        inside = omega arith;
        shown = omega arith;
        whole = omega arith;
      },
    )

-- With a page size that is a power of two up to 2 ^ 64 and a block whose address fits in 64 bits:
-- when `open` and `mmap` succeed, a factory maps from a page's begin on and gives a driver whose registers are in the mapping, at the
-- place that shows the block's physical address, and the mapping ends with the block; when
-- `open` fails it gives none and has called nothing, and when `mmap` fails it gives none and has
-- closed what it opened. On each path every later factory uses the same base.
pub map_block-Reaches :
    (block : Block) (file : Option Bytes) (cached : Option ℕ) (k fd at : ℕ) (mapping : Option ℕ)
    (calls : Calls)
    → k ≤ 64
    → let base = (periph_base file 0 cached).0 in
      let phys = map_address base block in
      phys < 2 ^ 64
      → ((m : Mapped) × ((map_block block file cached (2 ^ k) (some fd) (some at) calls).0 ≡ some m)
          × Reaches m (2 ^ k) at (page_base (2 ^ k) phys) phys (block_size block))
        × (map_block block file cached (2 ^ k) none mapping calls ≡ (none, calls, some base))
        × (let lost = map_block block file cached (2 ^ k) (some fd) none calls in
            (lost.0 ≡ none)
            × (lost.1.opened ≡ fd ∷ calls.opened)
            × (lost.1.closed ≡ fd ∷ calls.closed)
            × (lost.1.mapped ≡ calls.mapped))
        × ((next : Block) (opened first second : Option ℕ)
            → let (m, calls', cached') = map_block block file cached (2 ^ k) opened first calls in
              map_block next none cached' (2 ^ k) (some fd) second calls'
              ≡ map_block next file cached (2 ^ k) (some fd) second calls')
unfolding map_block new_mapped construct periph_base
map_block-Reaches block file cached k fd at mapping calls h lt = (
  map_block-made k fd at (map_address (periph_base file 0 cached).0 block) (block_size block) calls
      h lt,
  refl,
  (refl, refl, refl, refl),
  λ next opened first second. refl,
)
