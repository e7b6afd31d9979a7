-- ===== src/Mmu/Identity.antt =====
-- The tables map the first two gigabytes to themselves.
use rpi3b.Base.{
  ℕ, ◌+◌, ◌*◌, ◌/◌, ◌%◌, ◌^◌, ◌≤◌, ◌<◌, ◌≡◌, refl, ap, ◌∙◌, true, Option, none, some, ltb, ◌==◌,
  if◌then◌else◌, bit_or, arith, Bool-cases, inl, inr,
}
use rpi3b.Mmio.{update}
use rpi3b.Mmu.{device_block, desc_table, Tables, mmu_build_tables, SystemRegisters, mmu_enable}
use rpi3b.Mmu.Descriptors.{fill_l2-value, clear_l1-value, l2_word}
use rpi3b.Mmu.Walk.{Page, block, base_of, entry_one, entry_two, level_one, is_regime, translate}
use rpi3b.Word.{bit_at}
use rpi3b.Word.Bits.{bit_at-bit_or}
use rpi3b.Word.Join.{bit_or-join}

-- The words of a table stand in memory at an address.
abbrev pub Holds : (ℕ → ℕ) → ℕ → (ℕ → ℕ) → Type 0
Holds read at table = (i : ℕ) → i < 512 → read (at + 8 * i) ≡ table i

-- The address of a table: of a page, in 48 bits.
abbrev pub IsPageBase : ℕ → Type 0
IsPageBase at = (at % 4096 ≡ 0) × (at < 2 ^ 48)

abbrev pub normal_page : ℕ → Page
normal_page va = record { address = va; attribute = 0xFF; shareability = 3 }

abbrev pub device_page : ℕ → Page
device_page va = record { address = va; attribute = 0x00; shareability = 0 }

-- RAM below the peripherals, the peripherals and the ARM-local block, and nothing above.
abbrev pub memory_map : ℕ → Option Page
memory_map va =
    if ltb va 0x3F000000
    then some (normal_page va)
    else if ltb va 0x80000000
    then some (device_page va)
    else none

l2-value : (l2_at : ℕ) (t : Tables) (i : ℕ) → i < 512 → (mmu_build_tables l2_at t).l2 i ≡ l2_word i
unfolding mmu_build_tables
l2-value l2_at t i h = ground (arith, fill_l2-value 512 0 t.l2 i)

-- The level-1 words.
abbrev l1_word : ℕ → ℕ → ℕ
l1_word l2_at i = if i == 0 then l2_at + 3 else if i == 1 then 0x40000401 else 0

linked : (at : ℕ) → at % 4096 ≡ 0 → bit_or at 3 ≡ at + 3
linked at h =
    ap (λ (t : ℕ). bit_or t 3) {y = at / 4096 * 2 ^ 12} (omega arith)
    ∙ bit_or-join 12 (at / 4096) 3 (omega arith)
    ∙ omega arith

l1-value :
    (l2_at : ℕ) (t : Tables) (i : ℕ)
    → l2_at % 4096 ≡ 0
    → i < 512
    → (mmu_build_tables l2_at t).l1 i ≡ l1_word l2_at i
unfolding mmu_build_tables device_block
l1-value l2_at t i aligned h = ground (
  arith,
  linked l2_at aligned,
  clear_l1-value 510 2 (update (update t.l1 0 (bit_or l2_at desc_table)) 1 0x40000401) i,
)

mmu_on : (s : ℕ) → (bit_or s 4101 % 2 == 1) ≡ true
unfolding bit_at
mmu_on s = ground (arith, bit_at-bit_or s 4101 0)

mmu_enable-regime : (l1_at : ℕ) (r : SystemRegisters) → is_regime (mmu_enable l1_at r) ≡ true
unfolding mmu_enable
mmu_enable-regime l1_at r = rw (mmu_on r.sctlr_el1) refl

base_of-PageBase : (at : ℕ) → IsPageBase at → base_of at ≡ at
base_of-PageBase at h = omega arith

base_of-linked : (at : ℕ) → IsPageBase at → base_of (at + 3) ≡ at
base_of-linked at h = omega arith

block-page :
    (r : SystemRegisters) (size word va index share attribute : ℕ)
    → word / 2 ^ 10 % 2 ≡ 1
    → word % 2 ^ 48 / size * size + va % size ≡ va
    → word / 4 % 8 ≡ index
    → word / 2 ^ 8 % 4 ≡ share
    → r.mair_el1 / 2 ^ (8 * index) % 256 ≡ attribute
    → block r size word va
      ≡ some (record { address = va; attribute = attribute; shareability = share })
block-page r size word va index share attribute flag addr idx sh attr =
    rw (flag, addr, idx, sh, attr) refl

entry_two-block :
    (r : SystemRegisters) (word va : ℕ)
    → word % 4 ≡ 1
    → entry_two r word va ≡ block r (2 ^ 21) word va
entry_two-block r word va h = rw h refl

entry_one-table :
    (r : SystemRegisters) (read : ℕ → ℕ) (word va : ℕ)
    → word % 4 ≡ 3
    → entry_one r read word va ≡ entry_two r (read (base_of word + 8 * (va / 2 ^ 21 % 512))) va
entry_one-table r read word va h = rw h refl

module _ (l1_at l2_at : ℕ) (r : SystemRegisters) (read : ℕ → ℕ) (l1_base : IsPageBase l1_at)
    (l2_base : IsPageBase l2_at) (has_l1 : Holds read l1_at (l1_word l2_at))
    (has_l2 : Holds read l2_at l2_word) where
  on : SystemRegisters
  on = mmu_enable l1_at r

  entry : ℕ → ℕ → Option Page
  entry word va = entry_one on read word va

  first_word :
      (va word : ℕ)
      → l1_word l2_at (va / 2 ^ 30 % 512) ≡ word
      → level_one on read va ≡ entry word va
  unfolding on mmu_enable entry
  first_word va word e =
      ap (λ (t : ℕ). entry_one on read t va)
        (ap (λ (t : ℕ). read (t + 8 * (va / 2 ^ 30 % 512))) (base_of-PageBase l1_at l1_base)
          ∙ has_l1 (va / 2 ^ 30 % 512) (omega arith)
          ∙ e)

  -- The level-2 word for an address of the first gigabyte.
  second_word :
      (va : ℕ) → read (base_of (l2_at + 3) + 8 * (va / 2 ^ 21 % 512)) ≡ l2_word (va / 2 ^ 21 % 512)
  second_word va =
      ap (λ (t : ℕ). read (t + 8 * (va / 2 ^ 21 % 512))) (base_of-linked l2_at l2_base)
      ∙ has_l2 (va / 2 ^ 21 % 512) (omega arith)

  second_entry :
      (va : ℕ) → va < 2 ^ 30 → entry_two on (l2_word (va / 2 ^ 21 % 512)) va ≡ memory_map va
  unfolding on mmu_enable
  second_entry va h = elim (Bool-cases (ltb va 0x3F000000)) [
    | inl ram ↦
        let word : l2_word (va / 2 ^ 21 % 512) ≡ va / 2 ^ 21 * 2 ^ 21 + 1797 = ground arith in
        ap (λ (t : ℕ). entry_two on t va) word
        ∙ entry_two-block on (va / 2 ^ 21 * 2 ^ 21 + 1797) va (omega arith)
        ∙ block-page on (2 ^ 21) (va / 2 ^ 21 * 2 ^ 21 + 1797) va 1 3 255 (omega arith)
            (omega arith) (omega arith) (omega arith) refl
        ∙ rw ram refl
    | inr device ↦
        let word : l2_word (va / 2 ^ 21 % 512) ≡ va / 2 ^ 21 * 2 ^ 21 + 1025 = ground arith in
        ap (λ (t : ℕ). entry_two on t va) word
        ∙ entry_two-block on (va / 2 ^ 21 * 2 ^ 21 + 1025) va (omega arith)
        ∙ block-page on (2 ^ 21) (va / 2 ^ 21 * 2 ^ 21 + 1025) va 0 0 0 (omega arith) (omega arith)
            (omega arith) (omega arith) refl
        ∙ ground arith
  ]

  first_gigabyte : (va : ℕ) → va < 2 ^ 30 → level_one on read va ≡ memory_map va
  unfolding entry
  first_gigabyte va h =
      first_word va (l2_at + 3) (ground arith)
      ∙ entry_one-table on read (l2_at + 3) va (omega arith)
      ∙ ap (λ (t : ℕ). entry_two on t va) (second_word va)
      ∙ second_entry va h

  second_gigabyte : (va : ℕ) → 2 ^ 30 ≤ va → va < 2 ^ 31 → level_one on read va ≡ memory_map va
  unfolding on mmu_enable entry
  second_gigabyte va h k = first_word va 0x40000401 (ground arith) ∙ ground arith

  rest_unmapped : (va : ℕ) → 2 ^ 31 ≤ va → va < 2 ^ 39 → level_one on read va ≡ memory_map va
  unfolding entry
  rest_unmapped va h k = first_word va 0 (ground arith) ∙ ground arith

-- The tables and registers that `mmu_build_tables` and `mmu_enable` leave, walked by the rules of
-- the architecture when the words of the tables stand in memory at page-aligned addresses, map each
-- address below 0x3F000000 to itself as normal write-back memory, inner shareable, each address
-- from there below 0x80000000 to itself as Device-nGnRnE memory, and no other address.
pub translate-build :
    (l1_at l2_at : ℕ) (t : Tables) (r : SystemRegisters) (read : ℕ → ℕ) (va : ℕ)
    → IsPageBase l1_at
    → IsPageBase l2_at
    → Holds read l1_at (mmu_build_tables l2_at t).l1
    → Holds read l2_at (mmu_build_tables l2_at t).l2
    → translate (mmu_enable l1_at r) read va ≡ memory_map va
unfolding on
translate-build l1_at l2_at t r read va b₁ b₂ h₁ h₂ =
    let k₁ : Holds read l1_at (l1_word l2_at) = λ i lt. h₁ i lt ∙ l1-value l2_at t i b₂.0 lt in
    let k₂ : Holds read l2_at l2_word = λ i lt. h₂ i lt ∙ l2-value l2_at t i lt in
    rw (mmu_enable-regime l1_at r) (
      ground (
        arith,
        first_gigabyte l1_at l2_at r read b₁ b₂ k₁ k₂ va,
        second_gigabyte l1_at l2_at r read b₁ b₂ k₁ k₂ va,
        rest_unmapped l1_at l2_at r read b₁ b₂ k₁ k₂ va,
      ))
