-- ===== src/Clock/Password.antt =====
-- The stores of src/src/clock/clock.cpp before hardware that wants a password: a clock register takes
-- a word only when its highest byte is 0x5A, and does not keep that byte (docs/DRIVER_REVIEW.md).
use rpi3b.Base.{ℕ, ◌/◌, ◌%◌, ◌^◌, ◌<◌, ◌≡◌, ◌==◌, if◌then◌else◌}
use rpi3b.Mmio.{Mmio}

-- What a register that holds `old` holds after a store of `new`.
abbrev pub passworded : ℕ → ℕ → ℕ
passworded old new = if new / 2 ^ 24 == 0x5a then new % 2 ^ 24 else old

-- No register has a bit in its highest byte.
abbrev pub AreSmall : Mmio → Type 0
AreSmall m = (k : ℕ) → m.value k < 2 ^ 24

-- The hardware keeps a register of `m` as it was, where the code stores what `m'` has there.
abbrev pub Ignored : Mmio → Mmio → ℕ → Type 0
Ignored m m' k = passworded (m.value k) (m'.value k) ≡ m.value k
