-- ===== src/Console/Digits.antt =====
-- The number printers: a printed number reads back as the number.
use native.Mathlib.Nat.{pow-zero, pow-suc, div-lt_iff_lt-mul, mod-lt, div-add-mod'}
use rpi3b.Base.{
  ℕ, zero, suc, ◌+◌, ◌-◌, ◌*◌, ◌/◌, ◌%◌, ◌^◌, ◌≤◌, ◌<◌, ◌≡◌, ◌≢◌, refl, ap, ◌∙◌, Bool, true, false,
  ◌&&◌, Option, none, some, [], ◌∷◌, ltb, leb, ◌==◌, if◌then◌else◌, arith, Bool-cases, Option-cases,
  inl, inr, passes_below, passes_below-at,
}
use rpi3b.Base.Text.{Bytes}
use rpi3b.Console.{digit, print_rounds, print_uint}

-- What a byte is worth as a digit.
abbrev pub digit_value : ℕ → Option ℕ
digit_value c =
    if leb b'0' c && leb c b'9'
    then some (c - b'0')
    else if leb b'A' c && leb c b'F'
    then some (c - 55)
    else if leb b'a' c && leb c b'f'
    then some (c - 87)
    else none

-- The number that a text of digits denotes, after digits that denote `acc`; `none` for a byte that
-- is no digit of the base.
unfoldable pub read : ℕ → ℕ → Bytes → Option ℕ
read base acc [] = some acc
read base acc (c ∷ s) = elim (digit_value c) [
  | none ↦ none
  | some d ↦ if ltb d base then read base (acc * base + d) s else none
]

reads_back : Bool → ℕ → Bool
unfolding digit
reads_back upper d = elim (digit upper d) [
  | none ↦ false
  | some c ↦ elim (digit_value c) [ none ↦ false | some e ↦ e == d ]
]

reads_back-below : (upper : Bool) → passes_below (reads_back upper) 16 ≡ true
unfolding reads_back passes_below
reads_back-below true = refl
reads_back-below false = refl

pub digit-read :
    (upper : Bool) (d : ℕ) → d < 16 → (c : ℕ) × (digit upper d ≡ some c) × (digit_value c ≡ some d)
unfolding reads_back
digit-read upper d h =
    let checked : reads_back upper d ≡ true =
      passes_below-at (reads_back upper) 16 d h (reads_back-below upper) in
    elim (Option-cases (digit upper d)) [
      | inl missing ↦ absurd (ground arith)
      | inr (c, found) ↦ (c, found, ground arith)
    ]

pub less : (base v room : ℕ) → 2 ≤ base → v < base ^ suc room → v / base < base ^ room
less base v room two h =
    (div-lt_iff_lt-mul {k = base} {x = v} {y = base ^ room} (omega arith)).1
      (omega (arith, pow-suc base room))

digits_join : (v base : ℕ) → v / base * base + v % base ≡ v
digits_join v base = div-add-mod' v base

read-print_rounds :
    (room base : ℕ) (upper : Bool) (v : ℕ) (buf : Bytes)
    → 2 ≤ base
    → base ≤ 16
    → v < base ^ room
    → (out : Bytes) × (print_rounds room base upper v buf ≡ some out)
      × (read base 0 out ≡ read base v buf)
unfolding print_rounds read
read-print_rounds zero base upper v buf two most h =
    (buf, refl, ap (λ (t : ℕ). read base t buf) (omega (arith, pow-zero base)))
read-print_rounds (suc room) base upper v buf two most h = elim (Bool-cases (v == 0)) [
  | inl done ↦ rw done (buf, refl, ap (λ (t : ℕ). read base t buf) (ground arith))
  | inr more ↦
      let small : v % base < base = mod-lt v (omega arith) in
      let (c, found, worth) = digit-read upper (v % base) (omega arith) in
      let (out, printed, same) =
        read-print_rounds room base upper (v / base) (c ∷ buf) two most (less base v room two h) in
      (out, rw (more, found) printed, same ∙ ground (arith, digits_join v base))
]

-- The first digit is not zero.
abbrev pub Leads : Bytes → Type 0
Leads [] = ⊥
Leads (c ∷ s) = digit_value c ≢ some 0

print_rounds-done :
    (room base : ℕ) (upper : Bool) (v : ℕ) (buf out : Bytes)
    → (v == 0) ≡ true
    → print_rounds room base upper v buf ≡ some out
    → out ≡ buf
unfolding print_rounds
print_rounds-done zero base upper v buf out e printed = cc
print_rounds-done (suc room) base upper v buf out e printed = ground arith

Leads-print_rounds :
    (room base : ℕ) (upper : Bool) (v : ℕ) (buf out : Bytes)
    → 2 ≤ base
    → base ≤ 16
    → v < base ^ room
    → v ≢ 0
    → print_rounds room base upper v buf ≡ some out
    → Leads out
unfolding print_rounds
Leads-print_rounds zero base upper v buf out two most h ne printed =
    absurd (omega (arith, pow-zero base))
Leads-print_rounds (suc room) base upper v buf out two most h ne printed =
    let small : v % base < base = mod-lt v (omega arith) in
    let (c, found, worth) = digit-read upper (v % base) (omega arith) in
    let again : print_rounds room base upper (v / base) (c ∷ buf) ≡ some out =
      ground (arith, printed, found) in
    elim (Bool-cases (v / base == 0)) [
      | inl last ↦
          let ended : out ≡ c ∷ buf =
            print_rounds-done room base upper (v / base) (c ∷ buf) out last again in
          rw ended (ground (arith, digits_join v base))
      | inr more ↦
          Leads-print_rounds room base upper (v / base) (c ∷ buf) out two most
            (less base v room two h) (ground arith) again
    ]

-- For a base from 2 to 16 and a number below the 24th power of it, `print_uint` stays inside its
-- digit table and prints a text of digits of that base, which reads back as the number; a number
-- other than zero has no leading zero.
pub read-print_uint :
    (v base : ℕ) (upper : Bool)
    → 2 ≤ base
    → base ≤ 16
    → v < base ^ 24
    → (out : Bytes) × (print_uint v base upper ≡ some out)
      × (read base 0 out ≡ some v)
      × (v ≢ 0 → Leads out)
unfolding print_uint read
read-print_uint v base upper two most h = elim (Bool-cases (v == 0)) [
  | inl none_left ↦ rw none_left (b'0' ∷ [], refl, ground arith, λ ne. absurd (ground arith))
  | inr more ↦
      let (out, printed, same) = read-print_rounds 24 base upper v [] two most h in
      rw more
        (out, printed, same, λ ne. Leads-print_rounds 24 base upper v [] out two most h ne printed)
]
