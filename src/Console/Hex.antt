-- ===== src/Console/Hex.antt =====
-- `uart_hex`: its sixteen digits read back as the number.
use native.Mathlib.Nat.{pow-suc, div-div-eq-div-mul}
use rpi3b.Base.{
  ℕ, zero, suc, ◌+◌, ◌*◌, ◌/◌, ◌%◌, ◌^◌, ◌<◌, ◌≡◌, refl, sym, ap, ◌∙◌, length, some, [], ◌∷◌, arith,
  bit_and,
}
use rpi3b.Base.Text.{Bytes}
use rpi3b.Console.{nibble, hex_rounds, uart_hex}
use rpi3b.Word.{◌>>◌}
use rpi3b.Word.Field.{mask, bit_and-mask}
use rpi3b.Console.Digits.{digit_value, read}

nibble-read : (d : ℕ) → d < 16 → digit_value (nibble d) ≡ some d
unfolding nibble
nibble-read d h = ground arith

bit_and-nibble : (v : ℕ) → bit_and v 0xF ≡ v % 16
unfolding mask
bit_and-nibble v = bit_and-mask 4 v (omega arith)

read-nil : (base acc : ℕ) → read base acc [] ≡ some acc
unfolding read
read-nil base acc = refl

read-cons :
    (base acc c d : ℕ) (s : Bytes)
    → digit_value c ≡ some d
    → d < base
    → read base acc (c ∷ s) ≡ read base (acc * base + d) s
unfolding read
read-cons base acc c d s worth h = ground arith

four_more : (n : ℕ) → 2 ^ (4 * suc n) ≡ 2 ^ (4 * n) * 16
four_more n =
    let k = 4 * n in
    ap (λ (t : ℕ). 2 ^ t) {y = suc (suc (suc (suc k)))} (omega arith)
    ∙ omega (
      arith,
      pow-suc 2 (suc (suc (suc k))),
      pow-suc 2 (suc (suc k)),
      pow-suc 2 (suc k),
      pow-suc 2 k,
    )

sixteenth : (v n : ℕ) → v / 2 ^ (4 * suc n) ≡ v / 2 ^ (4 * n) / 16
sixteenth v n = ap (λ (t : ℕ). v / t) (four_more n) ∙ sym (div-div-eq-div-mul v (2 ^ (4 * n)) 16)

nibble_sent : (v n : ℕ) → bit_and (v >> (4 * n)) 0xF ≡ v / 2 ^ (4 * n) % 16
unfolding ◌>>◌
nibble_sent v n = bit_and-nibble (v / 2 ^ (4 * n))

read-hex_rounds : (n v : ℕ) → read 16 (v / 2 ^ (4 * n)) (hex_rounds n v) ≡ some v
unfolding hex_rounds
read-hex_rounds zero v = read-nil 16 (v / 1) ∙ ap some (omega arith)
read-hex_rounds (suc n) v =
    let q = v / 2 ^ (4 * n) in
    rw (nibble_sent v n) (
      read-cons 16 (v / 2 ^ (4 * suc n)) (nibble (q % 16)) (q % 16) (hex_rounds n v)
        (nibble-read (q % 16) (omega arith)) (omega arith)
      ∙ ap (λ (t : ℕ). read 16 t (hex_rounds n v)) (omega (arith, sixteenth v n))
      ∙ read-hex_rounds n v)

length-hex_rounds : (n v : ℕ) → length (hex_rounds n v) ≡ n
unfolding hex_rounds
length-hex_rounds zero v = refl
length-hex_rounds (suc n) v = omega (arith, length-hex_rounds n v)

-- `uart_hex` sends "0x" and then sixteen digits, which read back as the number in base sixteen, for
-- every 64-bit number.
pub read-uart_hex :
    (v : ℕ)
    → v < 2 ^ 64
    → (out : Bytes) × (uart_hex v ≡ b'0' ∷ b'x' ∷ out)
      × (length out ≡ 16)
      × (read 16 0 out ≡ some v)
unfolding uart_hex
read-uart_hex v h = (
  hex_rounds 16 v,
  refl,
  length-hex_rounds 16 v,
  ap (λ (t : ℕ). read 16 t (hex_rounds 16 v)) (omega arith) ∙ read-hex_rounds 16 v,
)
