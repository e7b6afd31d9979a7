-- ===== src/Mmio.antt =====
-- `struct mmio_reg` of src/inc/memory_map.hpp and the register blocks made of it.
-- A block is addressed by word index, as `m_register[...]` is. A load gives the word last stored
-- or supplied by the hardware; each store is recorded, since the hardware sees every one of them.
pub mod Laws
pub mod Fields
use rpi3b.Base.{
  ℕ, ◌^◌, ◌<◌, Bool, true, false, ◌==◌, if◌then◌else◌, bit_and, bit_or, bit_xor, List, ◌∷◌,
}

pub record Mmio : Type 0 where
  pub value : ℕ → ℕ
  -- The stores made so far, as (register, word) pairs, the last one first.
  pub stores : List (ℕ × ℕ)

abbrev pub update : (ℕ → ℕ) → ℕ → ℕ → ℕ → ℕ
update f i v j = if i == j then v else f j

unfoldable pub load : Mmio → ℕ → ℕ
load m i = m.value i

unfoldable pub store : Mmio → ℕ → ℕ → Mmio
store m i v = record { value = update m.value i v; stores = (i, v) ∷ m.stores }

-- `reg |= v`, `reg &= v` and `reg ^= v`: one load, then one store.
unfoldable pub or_assign : Mmio → ℕ → ℕ → Mmio
unfolding load store
or_assign m i v = store m i (bit_or (load m i) v)

unfoldable pub and_assign : Mmio → ℕ → ℕ → Mmio
unfolding load store
and_assign m i v = store m i (bit_and (load m i) v)

unfoldable pub xor_assign : Mmio → ℕ → ℕ → Mmio
unfolding load store
xor_assign m i v = store m i (bit_xor (load m i) v)

-- Every register holds a 32-bit word.
abbrev pub IsWords : Mmio → Type 0
IsWords m = (i : ℕ) → m.value i < 2 ^ 32
