-- ===== src/Mapping/Address.antt =====
-- The two sets of addresses: those of the factories, and those of bare-metal overlays.
use rpi3b.Base.{ℕ, ◌≡◌, ◌≢◌, ◌↔◌, refl, none, some, arith}
use rpi3b.Mapping.{Block, gpio_block, clock_block, i2c_block, spi_block, map_address, operator_new}

-- With no region, a block is overlaid at the address where the factory maps it, from the same base,
-- for GPIO and SPI0 at every base, for BSC1 at the base 0x3F000000 only, and for the clock manager
-- at none; a region that is given is used as it is.
pub operator_new-map_address :
    (base region : ℕ) (block : Block)
    → (operator_new base gpio_block none ≡ map_address base gpio_block)
      × (operator_new base spi_block none ≡ map_address base spi_block)
      × ((operator_new base i2c_block none ≡ map_address base i2c_block) ↔ (base ≡ 0x3F000000))
      × (operator_new base clock_block none ≢ map_address base clock_block)
      × (operator_new base block (some region) ≡ region)
unfolding operator_new map_address
operator_new-map_address base region block =
    (refl, refl, ((λ e. omega arith), (λ e. omega arith)), (λ e. omega arith), given block)
  where
    given : (block : Block) → operator_new base block (some region) ≡ region
    given gpio_block = refl
    given clock_block = refl
    given i2c_block = refl
    given spi_block = refl
