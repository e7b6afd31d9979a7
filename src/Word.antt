-- ===== src/Word.antt =====
-- The 32-bit operations of the drivers on `std::uint32_t`, and single bits of a word.
-- `~`, `<<` and `>>` are those of C++ on an unsigned operand of 32 bits, with a shift below 32.
pub mod Bits
pub mod Shift
pub mod Field
pub mod Single
pub mod Merge
pub mod Join
use rpi3b.Base.{
  ℕ, zero, suc, ◌-◌, ◌*◌, ◌/◌, ◌%◌, ◌^◌, ◌<◌, Bool, true, false, leb, ◌==◌, if◌then◌else◌, bit_and,
  bit_or,
}

-- `~x`
unfoldable pub not32 : ℕ → ℕ
not32 x = 2 ^ 32 - 1 - x

-- `x << k`
infixl 75 ◌<<◌ ◌>>◌
unfoldable pub ◌<<◌ : ℕ → ℕ → ℕ
x << k = x * 2 ^ k % 2 ^ 32

-- `x >> k`
unfoldable pub ◌>>◌ : ℕ → ℕ → ℕ
x >> k = x / 2 ^ k

-- Bit `i` of a number.
unfoldable pub bit_at : ℕ → ℕ → Bool
bit_at x zero = x % 2 == 1
bit_at x (suc i) = bit_at (x / 2) i
