-- ===== src/Gpio/Function.antt =====
-- The pin functions: `write`, `read`, `output` and `input` of src/src/gpio/gpio.cpp.
use rpi3b.Base.{
  ℕ, ◌+◌, ◌*◌, ◌/◌, ◌%◌, ◌≤◌, ◌<◌, ◌≡◌, ◌≢◌, refl, ◌∙◌, ltb, ◌==◌, if◌then◌else◌, arith, bit_and,
  bit_or, le→leb, Bool-cases, inl, inr, ◌⊎◌,
}
use rpi3b.Word.{not32, ◌<<◌}
use rpi3b.Word.Field.{
  mask, insert_field, extract_field, bit_and-mask, extract_field-insert_field,
  extract_field-insert_field_ne,
}
use rpi3b.Word.Single.{zero_<<, bit_or-zero}
use rpi3b.Mmio.{Mmio}
use rpi3b.Gpio.Registers.{Config, config_code, output_mode, input_mode}
use rpi3b.Gpio.{gpio_max, select, write, read, output, input}

mask_three : mask 3 ≡ 7
unfolding mask not32 ◌<<◌
mask_three = refl

select_word :
    (r s code : ℕ)
    → code < 8
    → bit_or (bit_and r (not32 (7 << s))) (code << s) ≡ insert_field s 3 code r
select_word r s code h =
    let low : bit_and code (mask 3) ≡ code = bit_and-mask 3 code (omega arith) ∙ omega arith in
    rw (low, mask_three)

select-value :
    (m : Mmio) (g code j : ℕ)
    → code < 8
    → (select m g code).value j
      ≡ (if g / 10 == j then insert_field (g % 10 * 3) 3 code (m.value j) else m.value j)
unfolding select
select-value m g code j h = ground (arith, select_word (m.value j) (g % 10 * 3) code)

read_field :
    (m : Mmio) (g : ℕ) → g ≤ gpio_max → read m g ≡ extract_field (g % 10 * 3) 3 (m.value (g / 10))
unfolding read
read_field m g h = rw mask_three (ground arith)

config_code-lt : (c : Config) → config_code c < 8
config_code-lt c = ground arith

fields_apart :
    (g g' : ℕ)
    → g ≢ g'
    → g / 10 ≡ g' / 10
    → (g' % 10 * 3 + 3 ≤ g % 10 * 3) ⊎ (g % 10 * 3 + 3 ≤ g' % 10 * 3)
fields_apart g g' h e = elim (Bool-cases (ltb g g')) [
  | inl lt ↦ inr (ground arith)
  | inr ge ↦ inl (ground arith)
]

read-select :
    (m : Mmio) (g g' code : ℕ)
    → g' ≤ gpio_max
    → code < 8
    → read (select m g code) g' ≡ (if g == g' then code else read m g')
read-select m g g' code h small = ground (
  arith,
  read_field (select m g code) g' h,
  read_field m g' h,
  select-value m g code (g' / 10) small,
  fields_apart g g',
  extract_field-insert_field (g % 10 * 3) 3 code (m.value (g' / 10)) (omega arith),
  extract_field-insert_field_ne (g % 10 * 3) 3 (g' % 10 * 3) 3 code (m.value (g' / 10))
      (omega arith),
)

-- For pins 0 to 53, writing a function to a pin sets the function that is read for that pin and
-- keeps the one of every other pin. Register by register: the pin's three bits of the register
-- with index `g / 10` are replaced, and no other bit of any register changes.
pub read-write :
    (m : Mmio) (g g' j : ℕ) (cfg : Config)
    → g ≤ gpio_max
    → g' ≤ gpio_max
    → (read (write m g cfg) g' ≡ (if g == g' then config_code cfg else read m g'))
      × ((write m g cfg).value j ≡ (
          if g / 10 == j
          then insert_field (g % 10 * 3) 3 (config_code cfg) (m.value j)
          else m.value j))
unfolding write
read-write m g g' j cfg h h' = rw (le→leb g gpio_max h) (
  read-select m g g' (config_code cfg) h' (config_code-lt cfg),
  select-value m g (config_code cfg) j (config_code-lt cfg),
)

-- For every pin number, `output` is `write` of the output function, and `input` leaves in every
-- register the word that `write` of the input function leaves there.
pub output-input-eq-write :
    (m : Mmio) (g j : ℕ)
    → (output m g ≡ write m g output_mode) × ((input m g).value j ≡ (write m g input_mode).value j)
unfolding output input write select
output-input-eq-write m g j = (
  refl,
  ground (
    arith,
    zero_<< (g % 10 * 3),
    bit_or-zero (bit_and (m.value (g / 10)) (not32 (7 << (g % 10 * 3)))),
  ),
)
