-- ===== src/Clock/Cleared.antt =====
-- Clearing the divisors of src/src/clock/clock.cpp, and reading them, with the registers as memory.
use rpi3b.Base.{
  ℕ, ◌+◌, ◌%◌, ◌^◌, ◌<◌, ◌≤◌, ◌≡◌, refl, ap, ◌∙◌, false, not, ◌&&◌, ltb, ◌==◌, if◌then◌else◌, arith,
  bit_and, bit_or,
}
use native.Mathlib.Nat.{one-le-pow}
use rpi3b.Word.{not32, ◌<<◌, bit_at}
use rpi3b.Word.Field.{
  mask, bit_at_of_lt, lt_two_pow_add, bit_or-lt, extract_field, bit_at-mask, bit_at-extract_field,
  extract_field-lt,
}
use rpi3b.Word.Shift.{eq_of_bits, bit_at-<<}
use rpi3b.Word.Bits.{bit_at-zero, bit_at-bit_and, bit_at-bit_or}
use rpi3b.Word.Single.{bit_at-clear_one}
use rpi3b.Mmio.Laws.{load-and_assign}
use rpi3b.Mmio.{Mmio, load}
use rpi3b.Clock.Registers.{
  Register, index, cm_gp0ctl, cm_gp0div, cm_gp1ctl, cm_gp1div, cm_gp2ctl, cm_gp2div, ClockDivisor,
  divf, divi, both_value,
}
use rpi3b.Clock.{low_ones, clr_cm_gpndiv, get_cm_gpndiv, take_div, write_div, read_div}
use rpi3b.Clock.Divisor.{
  is_divisor, position, width, low_ones_twelve, low_ones_two_dozen, take_div-extract_field,
  read_div-write_div,
}

pub cleared_field :
    (s w r c : ℕ)
    → w ≤ 32
    → ((i : ℕ) → i < w → bit_at c (i + s) ≡ false)
    → extract_field s w (bit_and r c) ≡ 0
cleared_field s w r c h clear =
    eq_of_bits w (extract_field s w (bit_and r c)) 0 (extract_field-lt s w (bit_and r c) h)
      (one-le-pow w 2 (omega arith))
      λ i lt. ground (
        arith,
        bit_at-extract_field s w (bit_and r c) i,
        bit_at-bit_and r c (i + s),
        clear i lt,
        bit_at-zero i,
      )

kept_ones : bit_and (low_ones 24) (low_ones 12) < 2 ^ 12
unfolding not32 ◌<<◌
kept_ones = omega arith

cleared_div :
    (reg : Register) (m : Mmio) (d : ClockDivisor) → take_div reg (clr_cm_gpndiv m reg d) d ≡ 0
unfolding clr_cm_gpndiv
cleared_div reg m d =
    take_div-extract_field reg (clr_cm_gpndiv m reg d) d
    ∙ elim d
        as (λ k.
          extract_field (position k) (width k) (load (clr_cm_gpndiv m reg k) (index reg)) ≡ 0) [
            | divi ↦
                ap (λ (r : ℕ). extract_field 12 12 r)
                  (load-and_assign m (index reg) (bit_and (low_ones 24) (low_ones 12)) (index reg)
                    ∙ ground arith)
                ∙ cleared_field 12 12 (load m (index reg)) (bit_and (low_ones 24) (low_ones 12))
                    (omega arith)
                    (λ i lt.
                      bit_at_of_lt 12 (bit_and (low_ones 24) (low_ones 12)) (i + 12) kept_ones
                        (omega arith))
            | divf ↦
                ap (λ (r : ℕ). extract_field 0 12 r)
                  (load-and_assign m (index reg) (not32 0 << 12) (index reg) ∙ ground arith)
                ∙ cleared_field 0 12 (load m (index reg)) (not32 0 << 12) (omega arith)
                    (λ i lt. ground (arith, bit_at-<< (not32 0) 12 (i + 0)))
            | both_value ↦
                ap (λ (r : ℕ). extract_field 0 24 r)
                  (load-and_assign m (index reg) (not32 0 << 24) (index reg) ∙ ground arith)
                ∙ cleared_field 0 24 (load m (index reg)) (not32 0 << 24) (omega arith)
                    (λ i lt. ground (arith, bit_at-<< (not32 0) 24 (i + 0)))
          ]

read_div_lem :
    (m : Mmio) (reg : Register) (d : ClockDivisor)
    → read_div m reg d ≡ (if is_divisor reg then take_div reg m d else 0)
unfolding read_div
read_div_lem m cm_gp0div d = refl
read_div_lem m cm_gp1div d = refl
read_div_lem m cm_gp2div d = refl
read_div_lem m cm_gp0ctl d = refl
read_div_lem m cm_gp1ctl d = refl
read_div_lem m cm_gp2ctl d = refl

pub zero-bit_or : (x : ℕ) → bit_or 0 x ≡ x
zero-bit_or x =
    eq_of_bits (x + 32) (bit_or 0 x) x
      (bit_or-lt (x + 32) 0 x (omega (arith, lt_two_pow_add x)) (lt_two_pow_add x))
      (lt_two_pow_add x) λ i lt. ground (arith, bit_at-bit_or 0 x i, bit_at-zero i)

-- Clearing a divisor with `clr_CM_GPnDIV`, storing one with `write` and reading it with `read` gives
-- the value, cut to 12 bits (24 for both parts), for a register that holds a divisor.
pub read_div-write_div-clear :
    (m : Mmio) (reg : Register) (d : ClockDivisor) (v : ℕ)
    → read_div (write_div (clr_cm_gpndiv m reg d) reg d v) reg d
      ≡ (if is_divisor reg then v % 2 ^ width d else 0)
read_div-write_div-clear m reg d v = ground (
  arith,
  read_div-write_div (clr_cm_gpndiv m reg d) reg d v,
  read_div_lem (clr_cm_gpndiv m reg d) reg d,
  cleared_div reg m d,
  zero-bit_or (v % 2 ^ width d),
)

-- Which bits `get_CM_GPnDIV` and `read` give: they agree on DIVI; on DIVF and on both parts
-- `get_CM_GPnDIV` drops only bit 12 or bit 24 of the register, where `read` gives 12 or 24 bits.
pub get_cm_gpndiv-bits :
    (m : Mmio) (reg : Register) (i : ℕ)
    → i < 32
    → (bit_at (get_cm_gpndiv m reg divi) i ≡ bit_at (take_div reg m divi) i)
      × (bit_at (get_cm_gpndiv m reg divf) i ≡ (bit_at (load m (index reg)) i && not (i == 12)))
      × (bit_at (take_div reg m divf) i ≡ (bit_at (load m (index reg)) i && ltb i 12))
      × (bit_at (get_cm_gpndiv m reg both_value) i
          ≡ (bit_at (load m (index reg)) i && not (i == 24)))
      × (bit_at (take_div reg m both_value) i ≡ (bit_at (load m (index reg)) i && ltb i 24))
unfolding get_cm_gpndiv take_div
get_cm_gpndiv-bits m reg i h =
    let r = load m (index reg) in
    (
      refl,
      bit_at-clear_one r 12 i (omega arith) h,
      rw low_ones_twelve ground (arith, bit_at-bit_and r (mask 12) i, bit_at-mask 12 i),
      bit_at-clear_one r 24 i (omega arith) h,
      rw low_ones_two_dozen ground (arith, bit_at-bit_and r (mask 24) i, bit_at-mask 24 i),
    )
