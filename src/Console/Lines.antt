-- ===== src/Console/Lines.antt =====
-- `uart_puts`: its line ends.
use rpi3b.Base.{
  ℕ, ◌≡◌, refl, Bool, false, ◌&&◌, [], ◌∷◌, ◌==◌, if◌then◌else◌, arith, Bool-cases, inl, inr,
}
use rpi3b.Base.Text.{Bytes}
use rpi3b.Console.{uart_puts}

abbrev starts_line : Bytes → Bool
starts_line [] = false
starts_line (c ∷ s) = c == b'\n'

-- The text without the carriage returns that stand directly before a line feed.
abbrev pub strip : Bytes → Bytes
strip [] = []
strip (c ∷ s) = if c == b'\r' && starts_line s then strip s else c ∷ strip s

-- Each line feed follows a carriage return, where `before` is the byte before the text.
abbrev pub IsTerminated : ℕ → Bytes → Type 0
IsTerminated before [] = Unit {0}
IsTerminated before (c ∷ s) = (c ≡ b'\n' → before ≡ b'\r') × IsTerminated c s

starts_line-uart_puts : (s : Bytes) → starts_line (uart_puts s) ≡ false
unfolding uart_puts
starts_line-uart_puts [] = refl
starts_line-uart_puts (c ∷ s) = ground arith

strip-uart_puts : (s : Bytes) → strip (uart_puts s) ≡ s
unfolding uart_puts
strip-uart_puts [] = refl
strip-uart_puts (c ∷ s) = ground (arith, strip-uart_puts s, starts_line-uart_puts s)

uart_puts-IsTerminated : (before : ℕ) (s : Bytes) → IsTerminated before (uart_puts s)
unfolding uart_puts
uart_puts-IsTerminated before [] = tt
uart_puts-IsTerminated before (c ∷ s) = elim (Bool-cases (c == b'\n')) [
  | inl end ↦ rw end (λ e. absurd (omega arith), (λ e. refl, uart_puts-IsTerminated c s))
  | inr other ↦ rw other (λ e. absurd (ground arith), uart_puts-IsTerminated c s)
]

-- In what `uart_puts` sends, each line feed follows a carriage return, and without the carriage
-- returns before line feeds it is the text given, whatever carriage returns that text has.
pub uart_puts_lem : (s : Bytes) → IsTerminated 0 (uart_puts s) × (strip (uart_puts s) ≡ s)
uart_puts_lem s = (uart_puts-IsTerminated 0 s, strip-uart_puts s)
