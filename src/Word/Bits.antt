-- ===== src/Word/Bits.antt =====
-- What each word operation does to one bit, at every word and position.
use Prim.Native.Nat.{digits, bit_and-bitwise, bit_or-bitwise}
use rpi3b.Base.{
  ℕ, zero, suc, ◌+◌, ◌*◌, ◌/◌, ◌%◌, ◌≤◌, ◌<◌, min, max, bit_and, bit_or, ◌≡◌, refl, sym, ap, ◌∙◌,
  Bool, false, ◌&&◌, ◌||◌, ◌==◌, arith,
}
use rpi3b.Word.{bit_at}

pub bit_at-zero : (i : ℕ) → bit_at 0 i ≡ false
unfolding bit_at
bit_at-zero zero = refl
bit_at-zero (suc i) = bit_at-zero i

-- A digitwise operation acts on each bit by itself.
module _ (z : ℕ → ℕ) (f : ℕ → ℕ → ℕ) (g : Bool → Bool → Bool)
    (last : (b i : ℕ) → bit_at (z b) i ≡ g false (bit_at b i))
    (small : (x y : ℕ) → x < 2 → y < 2 → f x y < 2)
    (digit : (x y : ℕ) → x < 2 → y < 2 → (f x y == 1) ≡ g (x == 1) (y == 1)) where
  bit_at-digits : (n a b i : ℕ) → a ≤ n → bit_at (digits z f n a b) i ≡ g (bit_at a i) (bit_at b i)
  unfolding bit_at
  bit_at-digits zero zero b i h = last b i ∙ ap (λ t. g t (bit_at b i)) (sym (bit_at-zero i))
  bit_at-digits zero (suc a) b i h = absurd (omega arith)
  bit_at-digits (suc n) zero b i h = last b i ∙ ap (λ t. g t (bit_at b i)) (sym (bit_at-zero i))
  bit_at-digits (suc n) (suc a) b zero h =
      let d = digits z f n (suc a / 2) (b / 2) in
      let t = f (suc a % 2) (b % 2) in
      let small' : t < 2 = small (suc a % 2) (b % 2) (omega arith) (omega arith) in
      let e : (d * 2 + t) % 2 ≡ t = omega arith in
      ap (λ (w : ℕ). w == 1) e ∙ digit (suc a % 2) (b % 2) (omega arith) (omega arith)
  bit_at-digits (suc n) (suc a) b (suc i) h =
      let d = digits z f n (suc a / 2) (b / 2) in
      let t = f (suc a % 2) (b % 2) in
      let small' : t < 2 = small (suc a % 2) (b % 2) (omega arith) (omega arith) in
      let e : (d * 2 + t) / 2 ≡ d = omega arith in
      ap (λ (w : ℕ). bit_at w i) e ∙ bit_at-digits n (suc a / 2) (b / 2) i (omega arith)

pub bit_at-bit_and : (a b i : ℕ) → bit_at (bit_and a b) i ≡ (bit_at a i && bit_at b i)
bit_at-bit_and a b i =
    ap (λ (w : ℕ). bit_at w i) (bit_and-bitwise a b)
    ∙ bit_at-digits (λ _. 0) min ◌&&◌ (λ b i. bit_at-zero i) (λ x y p q. omega arith)
        (λ x y p q. ground arith) a a b i (omega arith)

pub bit_at-bit_or : (a b i : ℕ) → bit_at (bit_or a b) i ≡ (bit_at a i || bit_at b i)
bit_at-bit_or a b i =
    ap (λ (w : ℕ). bit_at w i) (bit_or-bitwise a b)
    ∙ bit_at-digits (λ y. y) max ◌||◌ (λ b i. refl) (λ x y p q. omega arith)
        (λ x y p q. ground arith) a a b i (omega arith)
