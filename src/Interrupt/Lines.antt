-- ===== src/Interrupt/Lines.antt =====
-- Enabling, disabling and querying single interrupt lines, and the table of handlers.
use rpi3b.Base.{
  ℕ, ◌+◌, ◌/◌, ◌%◌, ◌<◌, ◌≤◌, ◌≡◌, ◌↔◌, refl, sym, ap, ◌∙◌, Bool, ◌||◌, Option, none, some, arith,
  ltb, ◌==◌, ◌&&◌, if◌then◌else◌,
}
use rpi3b.Word.{bit_at, ◌<<◌}
use rpi3b.Word.Single.{bit_and_one, bit_at-bit_or_one}
use rpi3b.Mmio.{or_assign}
use rpi3b.Interrupt.{
  Code, Irq, set_line, enable, disable, is_enabled, register_handler, handler_for, max_handlers,
}

is_enabled-bit :
    (irq : Irq) (n : ℕ)
    → n < 64
    → is_enabled irq n ≡ some (bit_at (irq.memory.value (4 + n / 32)) (n % 32))
unfolding is_enabled
is_enabled-bit irq n h = ground (arith, bit_and_one (irq.memory.value (4 + n / 32)) (n % 32))

set_line-value :
    (irq : Irq) (low high n : ℕ)
    → high ≡ low + 1
    → n < 64
    → set_line low high irq n
      ≡ some (record irq { memory = or_assign irq.memory (low + n / 32) (1 << (n % 32)) })
unfolding set_line
set_line-value irq low high n e h = ground arith

-- For the lines 0 to 63, `enable` and `disable` are defined. After `enable` of a line, `is_enabled`
-- holds of it and of the lines of which it held before; `disable` leaves what `is_enabled` gives
-- as it was, since it stores into other registers than those that are read back.
pub is_enabled-enable :
    (irq : Irq) (n n' : ℕ)
    → n < 64
    → n' < 64
    → (after : Irq) × (enable irq n ≡ some after)
      × ((b : Bool) × (is_enabled irq n' ≡ some b) × (is_enabled after n' ≡ some (b || n' == n)))
      × ((off : Irq) × (disable irq n ≡ some off) × (is_enabled off n' ≡ is_enabled irq n'))
unfolding enable disable
is_enabled-enable irq n n' h h' =
    let after = record irq { memory = or_assign irq.memory (4 + n / 32) (1 << (n % 32)) } in
    let off = record irq { memory = or_assign irq.memory (7 + n / 32) (1 << (n % 32)) } in
    let word = irq.memory.value (4 + n' / 32) in
    let b = bit_at word (n' % 32) in
    let raised : bit_at (after.memory.value (4 + n' / 32)) (n' % 32) ≡ (b || n' == n) =
      unfold or_assign in ground (arith, bit_at-bit_or_one word (n % 32) (n' % 32) (omega arith)) in
    let same : bit_at (off.memory.value (4 + n' / 32)) (n' % 32) ≡ b =
      unfold or_assign in ground arith in
    let set : is_enabled after n' ≡ some (b || n' == n) =
      is_enabled-bit after n' h' ∙ ap some raised in
    let kept : is_enabled off n' ≡ some b = is_enabled-bit off n' h' ∙ ap some same in
    (
      after,
      set_line-value irq 4 5 n refl h,
      (b, is_enabled-bit irq n' h', set),
      (off, set_line-value irq 7 8 n refl h, kept ∙ sym (is_enabled-bit irq n' h')),
    )

-- From line 64 on, which the type of the argument admits, all three shift a 32-bit word by 32 or
-- more; below, none does.
pub enable_defined_iff :
    (irq : Irq) (n : ℕ)
    → ((enable irq n ≡ none) ↔ (64 ≤ n))
      × ((disable irq n ≡ none) ↔ (64 ≤ n))
      × ((is_enabled irq n ≡ none) ↔ (64 ≤ n))
unfolding enable disable is_enabled
enable_defined_iff irq n = ground arith

-- The table of handlers gives back what was registered last for a number below 72, and ignores
-- registrations and queries from 72 on.
pub handler_for-register_handler :
    (irq : Irq) (n n' : ℕ) (cb : Option Code)
    → handler_for (register_handler irq n cb) n'
      ≡ (if n == n' && ltb n max_handlers then cb else handler_for irq n')
unfolding handler_for register_handler
handler_for-register_handler irq n n' cb = ground arith
