-- ===== src/Mmu.antt =====
-- freestanding/mmu.cpp: the two translation tables and the system registers that turn them on.
-- A table is its 512 words by index; the addresses of the tables are the linker's, and given.
pub mod Descriptors
pub mod Walk
pub mod Identity
use rpi3b.Base.{ℕ, zero, suc, ◌+◌, ◌*◌, ◌^◌, ltb, if◌then◌else◌, bit_or}
use rpi3b.Mmio.{update}

abbrev pub two_mb : ℕ
two_mb = 0x200000

abbrev pub one_gb : ℕ
one_gb = 0x40000000

abbrev pub attr_device : ℕ
attr_device = 0

abbrev pub attr_normal : ℕ
attr_normal = 1

abbrev pub desc_block : ℕ
desc_block = 1

abbrev pub desc_table : ℕ
desc_table = 3

-- `AF` and `SH_INNER`
abbrev pub access_flag : ℕ
access_flag = 2 ^ 10

abbrev pub sh_inner : ℕ
sh_inner = 3 * 2 ^ 8

-- `ATTRIDX(i)`, for the index of an attribute.
abbrev pub attridx : ℕ → ℕ
attridx i = i * 4

-- `kPeriphIndex`: 0x3F000000 / k2MB
abbrev pub periph_index : ℕ
periph_index = 504

unfoldable pub normal_block : ℕ → ℕ
normal_block pa =
    bit_or (bit_or (bit_or (bit_or pa access_flag) sh_inner) (attridx attr_normal)) desc_block

unfoldable pub device_block : ℕ → ℕ
device_block pa = bit_or (bit_or (bit_or pa access_flag) (attridx attr_device)) desc_block

pub record Tables : Type 0 where
  pub l1 : ℕ → ℕ
  pub l2 : ℕ → ℕ

-- The loop over `l2`, from index `i` with so many rounds left.
unfoldable pub fill_l2 : ℕ → ℕ → (ℕ → ℕ) → ℕ → ℕ
fill_l2 zero i l2 = l2
fill_l2 (suc rounds) i l2 =
    let pa = i * two_mb in
    fill_l2 rounds (i + 1)
      (update l2 i (if ltb i periph_index then normal_block pa else device_block pa))

-- The loop over the rest of `l1`.
unfoldable pub clear_l1 : ℕ → ℕ → (ℕ → ℕ) → ℕ → ℕ
clear_l1 zero i l1 = l1
clear_l1 (suc rounds) i l1 = clear_l1 rounds (i + 1) (update l1 i 0)

unfoldable pub mmu_build_tables : ℕ → Tables → Tables
mmu_build_tables l2_at t =
    let l2 = fill_l2 512 0 t.l2 in
    let linked = update t.l1 0 (bit_or l2_at desc_table) in
    let local = update linked 1 (device_block one_gb) in
    record { l1 = clear_l1 510 2 local; l2 = l2 }

pub record SystemRegisters : Type 0 where
  pub mair_el1 : ℕ
  pub tcr_el1 : ℕ
  pub ttbr0_el1 : ℕ
  pub sctlr_el1 : ℕ

abbrev pub mair : ℕ
mair = bit_or (0xFF * 2 ^ 8) (0 * 2 ^ 0)

abbrev pub tcr : ℕ
tcr =
    bit_or
      (bit_or
        (bit_or (bit_or (bit_or (bit_or (25 * 2 ^ 0) (1 * 2 ^ 8)) (1 * 2 ^ 10)) (3 * 2 ^ 12))
          (0 * 2 ^ 14))
        (1 * 2 ^ 23))
      (2 * 2 ^ 32)

-- `mmu_enable`, with the address of `l1`.
unfoldable pub mmu_enable : ℕ → SystemRegisters → SystemRegisters
mmu_enable l1_at r = record {
  mair_el1 = mair;
  tcr_el1 = tcr;
  ttbr0_el1 = l1_at;
  sctlr_el1 = bit_or r.sctlr_el1 (bit_or (bit_or (1 * 2 ^ 0) (1 * 2 ^ 2)) (1 * 2 ^ 12));
}
