-- ===== src/Clock/Divisor.antt =====
-- The divisors of src/src/clock/clock.cpp: both sets of methods.
use rpi3b.Base.{
  ℕ, ◌+◌, ◌%◌, ◌^◌, ◌<◌, ◌≤◌, ◌≡◌, refl, sym, ap, ◌∙◌, Bool, true, false, if◌then◌else◌, arith,
  bit_and, bit_or,
}
use native.Mathlib.Nat.{mul-one, mod-lt, mod-eq_of_lt, one-le-pow, pow-le-pow_right, div-one}
use rpi3b.Word.{not32, ◌<<◌, ◌>>◌}
use rpi3b.Word.Field.{mask, bit_and-mask, extract_field}
use rpi3b.Word.Merge.{bit_and_comm, merge_field, extract_field-merge_field}
use rpi3b.Mmio.Laws.{load-or_assign}
use rpi3b.Mmio.{Mmio, load}
use rpi3b.Clock.Registers.{
  Register, index, cm_gp0ctl, cm_gp0div, cm_gp1ctl, cm_gp1div, cm_gp2ctl, cm_gp2div, ClockDivisor,
  divf, divi, both_value,
}
use rpi3b.Clock.{low_ones, put_div, take_div, write_div, read_div}

-- Which registers hold a divisor.
abbrev pub is_divisor : Register → Bool
is_divisor cm_gp0div = true
is_divisor cm_gp1div = true
is_divisor cm_gp2div = true
is_divisor _ = false

abbrev pub position : ClockDivisor → ℕ
position divi = 12
position divf = 0
position both_value = 0

abbrev pub width : ClockDivisor → ℕ
width divi = 12
width divf = 12
width both_value = 24

position-width : (d : ClockDivisor) → position d + width d ≤ 32
position-width divi = omega arith
position-width divf = omega arith
position-width both_value = omega arith

pub low_ones_twelve : low_ones 12 ≡ mask 12
unfolding mask not32 ◌<<◌
low_ones_twelve = refl

pub low_ones_two_dozen : low_ones 24 ≡ mask 24
unfolding mask not32 ◌<<◌
low_ones_two_dozen = refl

pub shr_zero : (x : ℕ) → x >> 0 ≡ x
unfolding ◌>>◌
shr_zero x = omega (arith, div-one x)

two_pow_mono : (a b : ℕ) → a ≤ b → 2 ^ a ≤ 2 ^ b
two_pow_mono a b h = pow-le-pow_right {n = 2} (omega arith) h

masked-lt : (w v : ℕ) → w ≤ 32 → bit_and v (mask w) < 2 ^ 32
masked-lt w v h = omega (
  arith,
  bit_and-mask w v h,
  mod-lt v {m = 2 ^ w} (one-le-pow w 2 (omega arith)),
  two_pow_mono w 32 h,
)

pub masked_unshifted : (w v : ℕ) → w ≤ 32 → bit_and v (mask w) << 0 ≡ bit_and v (mask w)
unfolding ◌<<◌
masked_unshifted w v h =
    ap (λ (t : ℕ). t % 2 ^ 32) (mul-one (bit_and v (mask w))) ∙ mod-eq_of_lt (masked-lt w v h)

pub take_div-extract_field :
    (reg : Register) (m : Mmio) (d : ClockDivisor)
    → take_div reg m d ≡ extract_field (position d) (width d) (load m (index reg))
unfolding take_div
take_div-extract_field reg m divi = rw low_ones_twelve refl
take_div-extract_field reg m divf = rw (low_ones_twelve, shr_zero (load m (index reg))) refl
take_div-extract_field reg m both_value =
    rw (low_ones_two_dozen, shr_zero (load m (index reg))) refl

module _ (reg : Register) (m : Mmio) (v : ℕ) where
  put_div-merge_field :
      (d : ClockDivisor)
      → load (put_div reg m d v) (index reg)
        ≡ merge_field (position d) (width d) v (load m (index reg))
  unfolding put_div
  put_div-merge_field divi =
      rw
        (
          load-or_assign m (index reg) (bit_and (low_ones 12) v << 12) (index reg),
          bit_and_comm (low_ones 12) v,
          low_ones_twelve,
        )
        ground arith
  put_div-merge_field divf =
      rw
        (
          load-or_assign m (index reg) (bit_and (low_ones 12) v) (index reg),
          bit_and_comm (low_ones 12) v,
          low_ones_twelve,
          masked_unshifted 12 v (omega arith),
        )
        ground arith
  put_div-merge_field both_value =
      rw
        (
          load-or_assign m (index reg) (bit_and (low_ones 24) v) (index reg),
          bit_and_comm (low_ones 24) v,
          low_ones_two_dozen,
          masked_unshifted 24 v (omega arith),
        )
        ground arith

  pub take_div-put_div :
      (d : ClockDivisor)
      → take_div reg (put_div reg m d v) d ≡ bit_or (take_div reg m d) (v % 2 ^ width d)
  take_div-put_div d =
      take_div-extract_field reg (put_div reg m d v) d
      ∙ ap (λ (r : ℕ). extract_field (position d) (width d) r) (put_div-merge_field d)
      ∙ extract_field-merge_field (position d) (width d) v (load m (index reg)) (position-width d)
      ∙ ap (λ (t : ℕ). bit_or t (v % 2 ^ width d)) (sym (take_div-extract_field reg m d))

-- Storing a divisor with `write` and reading it with `read` gives, for a register that holds a
-- divisor, the bits it had joined with those of the value; for another register, 0.
pub read_div-write_div :
    (m : Mmio) (reg : Register) (d : ClockDivisor) (v : ℕ)
    → read_div (write_div m reg d v) reg d
      ≡ (if is_divisor reg then bit_or (read_div m reg d) (v % 2 ^ width d) else 0)
unfolding read_div write_div
read_div-write_div m cm_gp0div d v = take_div-put_div cm_gp0div m v d
read_div-write_div m cm_gp1div d v = take_div-put_div cm_gp1div m v d
read_div-write_div m cm_gp2div d v = take_div-put_div cm_gp2div m v d
read_div-write_div m cm_gp0ctl d v = refl
read_div-write_div m cm_gp1ctl d v = refl
read_div-write_div m cm_gp2ctl d v = refl
