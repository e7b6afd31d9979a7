-- ===== src/Mapping.antt =====
-- inc/mmio.hpp: where the peripherals are, and the mapping of a register block into the process.
-- What the operating system answers is given; the calls that take or give back a descriptor or a
-- mapping are recorded.
pub mod Base
pub mod Page
pub mod Factory
pub mod Life
pub mod Balance
pub mod Address
use rpi3b.Base.{
  ℕ, zero, suc, ◌+◌, ◌-◌, ◌*◌, ◌^◌, Bool, true, false, not, ◌&&◌, ltb, leb, ◌==◌, if◌then◌else◌,
  bit_and, bit_or, Option, none, some, List, [], ◌∷◌, ◌++◌, length, take, get_elem?, min,
}
use rpi3b.Base.Text.{Bytes}

-- `SocPeriphBase`
pub data SocPeriphBase : Type 0 where
  bcm2835 : SocPeriphBase
  bcm2836_7 : SocPeriphBase
  bcm2711 : SocPeriphBase

abbrev pub soc_base : SocPeriphBase → ℕ
soc_base bcm2835 = 0x20000000
soc_base bcm2836_7 = 0x3F000000
soc_base bcm2711 = 0xFE000000

-- `unsigned char buf[16] = {0}` after `fread` of a file with this content, and the number of bytes
-- read.
abbrev pub read_into : Bytes → ℕ → ℕ
read_into content i = elim (get_elem? (take 16 content) i) [ none ↦ 0 | some b ↦ b ]

abbrev pub bytes_read : Bytes → ℕ
bytes_read content = min 16 (length content)

-- `(uintptr_t(buf[i]) << 24) | ... | uintptr_t(buf[i + 3])`
unfoldable pub big_endian : (ℕ → ℕ) → ℕ → ℕ
big_endian buf i =
    bit_or (bit_or (bit_or (buf i * 2 ^ 24) (buf (i + 1) * 2 ^ 16)) (buf (i + 2) * 2 ^ 8))
      (buf (i + 3))

-- `detect_periph_base`; the file is `none` when it cannot be opened.
unfoldable pub detect_periph_base : Option Bytes → ℕ
unfolding big_endian
detect_periph_base none = soc_base bcm2836_7
detect_periph_base (some content) =
    let n = bytes_read content in
    let buf = read_into content in
    if leb 8 n
    then (let first = big_endian buf 4 in
        let base = if first == 0 && leb 12 n then big_endian buf 8 else first in
        if base == 0 then soc_base bcm2836_7 else base)
    else soc_base bcm2836_7

-- `periph_base`, with its static variable, which is `none` before the first call.
unfoldable pub periph_base : Option Bytes → ℕ → Option ℕ → ℕ × Option ℕ
periph_base file force cached =
    let base : ℕ = elim cached [ none ↦ detect_periph_base file | some b ↦ b ] in
    let base' = if force == 0 then base else force in (base', some base')

-- The calls of `open` and `mmap` that succeeded, and those of `close` and `munmap`; a mapping is
-- given by its address and its length.
pub record Calls : Type 0 where
  pub opened : List ℕ
  pub closed : List ℕ
  pub mapped : List (ℕ × ℕ)
  pub unmapped : List (ℕ × ℕ)
  -- The offset and the length of each call of `mmap`.
  pub requested : List (ℕ × ℕ)

-- An `MMIO` object; `none` is a negative descriptor, and `MAP_FAILED`.
pub record Region : Type 0 where
  pub fd : Option ℕ
  pub map : Option ℕ
  pub offset : ℕ
  pub length : ℕ

abbrev pub empty_region : Region
empty_region = record { fd = none; map = none; offset = 0; length = 0 }

pub data Made : Type 0 where
  made : Region → Made
  open_failed : Made
  mmap_failed : Made

-- `phys & ~(pg - 1U)`
unfoldable pub page_base : ℕ → ℕ → ℕ
page_base pg phys = bit_and phys (2 ^ 64 - 1 - (pg - 1))

-- The constructor, with the page size and the answers of `open` and `mmap`.
unfoldable pub construct : ℕ → Option ℕ → Option ℕ → ℕ → ℕ → Calls → Made × Calls
construct pg none mapping phys len c = (open_failed, c)
construct pg (some fd) mapping phys len c =
    let page = page_base pg phys in
    let offset = phys - page in
    let whole = offset + len in
    let asked = record c { opened = fd ∷ c.opened; requested = (page, whole) ∷ c.requested } in
    elim mapping [
      | none ↦ (mmap_failed, record asked { closed = fd ∷ asked.closed })
      | some at ↦ (
        made (record { fd = some fd; map = some at; offset = offset; length = whole }),
        record asked { mapped = (at, whole) ∷ asked.mapped },
      )
    ]

abbrev pub unmap_first : Option ℕ → ℕ → Calls → Calls
unmap_first none len c = c
unmap_first (some at) len c = if at == 0 then c else record c { unmapped = (at, len) ∷ c.unmapped }

abbrev pub close_last : Option ℕ → Calls → Calls
close_last none c = c
close_last (some fd) c = record c { closed = fd ∷ c.closed }

-- The destructor.
unfoldable pub destroy : Region → Calls → Calls
destroy r c = close_last r.fd (unmap_first r.map r.length c)

-- `swap`: the two objects afterwards.
unfoldable pub swap : Region → Region → Region × Region
swap a b = (b, a)

-- The move constructor: the new object and the one moved from.
unfoldable pub move_construct : Region → Region × Region
unfolding swap
move_construct o = swap empty_region o

-- `get`
unfoldable pub get : Region → Option ℕ
get r = elim r.map [ none ↦ none | some at ↦ some (at + r.offset) ]

pub data Block : Type 0 where
  gpio_block : Block
  clock_block : Block
  i2c_block : Block
  spi_block : Block

-- `GPIO_OFFSET`, `CLOCK_OFFSET`, `I2C1_OFFSET` and `SPI0_OFFSET`
abbrev pub block_offset : Block → ℕ
block_offset gpio_block = 0x200000
block_offset clock_block = 0x101070
block_offset i2c_block = 0x804000
block_offset spi_block = 0x204000

-- Where the factories `map_gpio`, `map_clock`, `map_i2c` and `map_spi` look for the registers.
unfoldable pub map_address : ℕ → Block → ℕ
map_address base block = base + block_offset block

-- `operator new` of the register blocks in inc/memory_map.hpp, for a base `BCM_PERIPH_BASE`: the
-- region that is given, or else a physical address.
abbrev pub new_gpio : ℕ → Option ℕ → ℕ
new_gpio periph none = periph + 0x00200000
new_gpio periph (some region) = region

abbrev pub new_clock : ℕ → Option ℕ → ℕ
new_clock periph none = periph + 0x00100000
new_clock periph (some region) = region

abbrev pub new_bsc : Option ℕ → ℕ
new_bsc none = 0x3F804000
new_bsc (some region) = region

abbrev pub new_spi : ℕ → Option ℕ → ℕ
new_spi periph none = periph + 0x00204000
new_spi periph (some region) = region

unfoldable pub operator_new : ℕ → Block → Option ℕ → ℕ
operator_new periph gpio_block region = new_gpio periph region
operator_new periph clock_block region = new_clock periph region
operator_new periph i2c_block region = new_bsc region
operator_new periph spi_block region = new_spi periph region
