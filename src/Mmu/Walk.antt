-- ===== src/Mmu/Walk.antt =====
-- The translation of an address by the AArch64 rules, for a 39-bit address space with pages of
-- 4 KB, stage 1, by `TTBR0_EL1`: an independent description of what the hardware does with tables.
use rpi3b.Base.{
  ℕ, ◌+◌, ◌*◌, ◌/◌, ◌%◌, ◌^◌, Bool, ◌&&◌, Option, none, some, ltb, ◌==◌, if◌then◌else◌,
}
use rpi3b.Mmu.{SystemRegisters}

-- Where an address leads, with the byte of `MAIR_EL1` that says what kind of memory it is, and the
-- shareability field.
pub record Page : Type 0 where
  pub address : ℕ
  pub attribute : ℕ
  pub shareability : ℕ

-- A block of `size` bytes; without the access flag the access is a fault.
abbrev pub block : SystemRegisters → ℕ → ℕ → ℕ → Option Page
block r size word va =
    if word / 2 ^ 10 % 2 == 1
    then some (record {
      address = word % 2 ^ 48 / size * size + va % size;
      attribute = r.mair_el1 / 2 ^ (8 * (word / 4 % 8)) % 256;
      shareability = word / 2 ^ 8 % 4;
    })
    else none

-- The address in a table descriptor or a base register.
abbrev pub base_of : ℕ → ℕ
base_of word = word % 2 ^ 48 / 2 ^ 12 * 2 ^ 12

-- What a level-2 word leads to; a third level is not described.
abbrev pub entry_two : SystemRegisters → ℕ → ℕ → Option Page
entry_two r word va = if word % 4 == 1 then block r (2 ^ 21) word va else none

-- What a level-1 word leads to.
abbrev pub entry_one : SystemRegisters → (ℕ → ℕ) → ℕ → ℕ → Option Page
entry_one r read word va =
    if word % 4 == 1
    then block r (2 ^ 30) word va
    else if word % 4 == 3
    then entry_two r (read (base_of word + 8 * (va / 2 ^ 21 % 512))) va
    else none

abbrev pub level_one : SystemRegisters → (ℕ → ℕ) → ℕ → Option Page
level_one r read va = entry_one r read (read (base_of r.ttbr0_el1 + 8 * (va / 2 ^ 30 % 512))) va

-- The MMU is on, the address space has 39 bits, the granule is 4 KB, and walks by `TTBR0_EL1` are
-- not disabled.
abbrev pub is_regime : SystemRegisters → Bool
is_regime r =
    (r.sctlr_el1 % 2 == 1 && r.tcr_el1 % 64 == 25)
    && (r.tcr_el1 / 2 ^ 14 % 4 == 0 && r.tcr_el1 / 2 ^ 7 % 2 == 0)

-- `read` gives the 64-bit word at a physical address; `none` is a fault.
abbrev pub translate : SystemRegisters → (ℕ → ℕ) → ℕ → Option Page
translate r read va =
    if is_regime r then (if ltb va (2 ^ 39) then level_one r read va else none) else none
