-- ===== src/Mmu/Descriptors.antt =====
-- The numbers that the descriptors are, and what the loops leave in the tables.
use rpi3b.Base.{
  ℕ, zero, suc, ◌+◌, ◌*◌, ◌^◌, ◌≡◌, ap, ◌∙◌, ◌&&◌, ltb, leb, if◌then◌else◌, bit_or, arith,
}
use rpi3b.Mmio.{update}
use rpi3b.Mmu.{two_mb, periph_index, normal_block, device_block, fill_l2, clear_l1}
use rpi3b.Word.Join.{bit_or-join}
use rpi3b.Word.Single.{bit_or-zero}

normal_block-sum : (i : ℕ) → normal_block (i * two_mb) ≡ i * two_mb + 1797
unfolding normal_block
normal_block-sum i =
    let e₁ = bit_or-join 11 (i * 1024) 1024 (omega arith) in
    let e₂ = bit_or-join 10 (i * 2048 + 1) 768 (omega arith) in
    let e₃ = bit_or-join 3 (i * 262144 + 224) 4 (omega arith) in
    let e₄ = bit_or-join 1 (i * 1048576 + 898) 1 (omega arith) in
    let w₁ : bit_or (i * 2097152) 1024 ≡ (i * 2048 + 1) * 2 ^ 10 =
      ap (λ (t : ℕ). bit_or t 1024) {y = i * 1024 * 2 ^ 11} (omega arith) ∙ e₁ ∙ omega arith in
    let w₂ : bit_or ((i * 2048 + 1) * 2 ^ 10) 768 ≡ (i * 262144 + 224) * 2 ^ 3 = e₂ ∙ omega arith in
    let w₃ : bit_or ((i * 262144 + 224) * 2 ^ 3) 4 ≡ (i * 1048576 + 898) * 2 ^ 1 =
      e₃ ∙ omega arith in
    rw (w₁, w₂, w₃) (e₄ ∙ omega arith)

device_block-sum : (i : ℕ) → device_block (i * two_mb) ≡ i * two_mb + 1025
unfolding device_block
device_block-sum i =
    let e₁ = bit_or-join 11 (i * 1024) 1024 (omega arith) in
    let e₂ = bit_or-join 1 (i * 1048576 + 512) 1 (omega arith) in
    let w₁ : bit_or (i * 2097152) 1024 ≡ (i * 1048576 + 512) * 2 ^ 1 =
      ap (λ (t : ℕ). bit_or t 1024) {y = i * 1024 * 2 ^ 11} (omega arith) ∙ e₁ ∙ omega arith in
    rw (w₁, bit_or-zero ((i * 1048576 + 512) * 2 ^ 1)) (e₂ ∙ omega arith)

-- A word of the level-2 table.
abbrev pub l2_word : ℕ → ℕ
l2_word i = if ltb i periph_index then i * two_mb + 1797 else i * two_mb + 1025

pub fill_l2-value :
    (rounds i : ℕ) (l2 : ℕ → ℕ) (j : ℕ)
    → fill_l2 rounds i l2 j ≡ (if leb i j && ltb j (i + rounds) then l2_word j else l2 j)
unfolding fill_l2
fill_l2-value zero i l2 j = ground arith
fill_l2-value (suc rounds) i l2 j = ground (
  arith,
  normal_block-sum i,
  device_block-sum i,
  fill_l2-value rounds (i + 1) (update l2 i (l2_word i)) j,
)

pub clear_l1-value :
    (rounds i : ℕ) (l1 : ℕ → ℕ) (j : ℕ)
    → clear_l1 rounds i l1 j ≡ (if leb i j && ltb j (i + rounds) then 0 else l1 j)
unfolding clear_l1
clear_l1-value zero i l1 j = ground arith
clear_l1-value (suc rounds) i l1 j = ground (arith, clear_l1-value rounds (i + 1) (update l1 i 0) j)
