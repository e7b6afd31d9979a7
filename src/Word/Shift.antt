-- ===== src/Word/Shift.antt =====
-- The bits of a shifted word, of a remainder by a power of two and of a complement, and that
-- a number is determined by its bits.
use native.Mathlib.Nat.{two-pow-succ, pow-succ', div-add-mod, div-div-eq-div-mul}
use rpi3b.Base.{
  ℕ, zero, suc, ◌+◌, ◌-◌, ◌*◌, ◌/◌, ◌%◌, ◌^◌, ◌<◌, ◌≡◌, sym, ap, ◌∙◌, not, ◌&&◌, ltb, leb, arith,
}
use rpi3b.Word.{not32, ◌<<◌, ◌>>◌, bit_at}
use rpi3b.Word.Bits.{bit_at-zero}

bit_at-congr : (x i j : ℕ) → i ≡ j → bit_at x i ≡ bit_at x j
bit_at-congr x i j e = ap (λ (t : ℕ). bit_at x t) e

bit_of-congr : (x y i : ℕ) → x ≡ y → bit_at x i ≡ bit_at y i
bit_of-congr x y i e = ap (λ (t : ℕ). bit_at t i) e

div_two_pow : (x k : ℕ) → x / 2 ^ suc k ≡ x / 2 / 2 ^ k
div_two_pow x k = ap (λ (t : ℕ). x / t) (pow-succ' 2 k) ∙ sym (div-div-eq-div-mul x 2 (2 ^ k))

pub bit_at-div : (x k i : ℕ) → bit_at (x / 2 ^ k) i ≡ bit_at x (i + k)
unfolding bit_at
bit_at-div x zero i =
    bit_of-congr (x / 1) x i (omega arith) ∙ bit_at-congr x i (i + 0) (omega arith)
bit_at-div x (suc k) i =
    bit_of-congr (x / 2 ^ suc k) (x / 2 / 2 ^ k) i (div_two_pow x k)
    ∙ bit_at-div (x / 2) k i
    ∙ bit_at-congr x (suc (i + k)) (i + suc k) (omega arith)

mul_two_pow : (x k : ℕ) → x * 2 ^ suc k ≡ x * 2 ^ k * 2
mul_two_pow x k = omega (arith, ap (λ (t : ℕ). x * t) (two-pow-succ k))

pub bit_at-mul : (x k i : ℕ) → bit_at (x * 2 ^ k) i ≡ (leb k i && bit_at x (i - k))
unfolding bit_at
bit_at-mul x zero i = ground (arith, bit_of-congr (x * 1) x i)
bit_at-mul x (suc k) zero = ground (arith, mul_two_pow x k)
bit_at-mul x (suc k) (suc i) =
    bit_of-congr (x * 2 ^ suc k / 2) (x * 2 ^ k) i (omega (arith, mul_two_pow x k))
    ∙ bit_at-mul x k i
    ∙ ground arith

mod_two_pow : (x k : ℕ) → x % 2 ^ suc k ≡ x / 2 % 2 ^ k * 2 + x % 2
mod_two_pow x k =
    let e : 2 ^ suc k * (x / 2 ^ suc k) ≡ 2 * (2 ^ k * (x / 2 / 2 ^ k)) =
      rw (div_two_pow x k, pow-succ' 2 k) (omega arith) in
    omega (arith, e, div-add-mod x (2 ^ suc k), div-add-mod (x / 2) (2 ^ k))

pub bit_at-mod : (x k i : ℕ) → bit_at (x % 2 ^ k) i ≡ (ltb i k && bit_at x i)
unfolding bit_at
bit_at-mod x zero i = bit_of-congr (x % 1) 0 i (omega arith) ∙ bit_at-zero i ∙ ground arith
bit_at-mod x (suc k) zero = ground (arith, mod_two_pow x k)
bit_at-mod x (suc k) (suc i) =
    bit_of-congr (x % 2 ^ suc k / 2) (x / 2 % 2 ^ k) i (omega (arith, mod_two_pow x k))
    ∙ bit_at-mod (x / 2) k i
    ∙ ground arith

pub bit_at-complement :
    (n x i : ℕ) → x < 2 ^ n → bit_at (2 ^ n - 1 - x) i ≡ (ltb i n && not (bit_at x i))
unfolding bit_at
bit_at-complement zero x i h = bit_of-congr (0 - x) 0 i (omega arith) ∙ bit_at-zero i ∙ ground arith
bit_at-complement (suc n) x zero h = ground (arith, two-pow-succ n)
bit_at-complement (suc n) x (suc i) h =
    bit_of-congr ((2 ^ suc n - 1 - x) / 2) (2 ^ n - 1 - x / 2) i (omega (arith, two-pow-succ n))
    ∙ bit_at-complement n (x / 2) i (omega (arith, two-pow-succ n))
    ∙ ground arith

pub eq_of_bits :
    (n x y : ℕ) → x < 2 ^ n → y < 2 ^ n → ((i : ℕ) → i < n → bit_at x i ≡ bit_at y i) → x ≡ y
unfolding bit_at
eq_of_bits zero x y p q h = omega arith
eq_of_bits (suc n) x y p q h =
    let halves : x / 2 ≡ y / 2 =
      eq_of_bits n (x / 2) (y / 2) (omega (arith, two-pow-succ n)) (omega (arith, two-pow-succ n))
        (λ i lt. h (suc i) (omega arith)) in
    ground (arith, h 0 (omega arith))

-- The bits of `~x`, `x << k` and `x >> k`.
pub bit_at-not32 : (x i : ℕ) → x < 2 ^ 32 → bit_at (not32 x) i ≡ (ltb i 32 && not (bit_at x i))
unfolding not32
bit_at-not32 x i h = bit_at-complement 32 x i h

pub bit_at-<< : (x k i : ℕ) → bit_at (x << k) i ≡ (ltb i 32 && (leb k i && bit_at x (i - k)))
unfolding ◌<<◌
bit_at-<< x k i = bit_at-mod (x * 2 ^ k) 32 i ∙ ap (λ t. ltb i 32 && t) (bit_at-mul x k i)

pub bit_at->> : (x k i : ℕ) → bit_at (x >> k) i ≡ bit_at x (i + k)
unfolding ◌>>◌
bit_at->> x k i = bit_at-div x k i
