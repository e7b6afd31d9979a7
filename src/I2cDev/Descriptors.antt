-- ===== src/I2cDev/Descriptors.antt =====
-- The descriptors of an `I2cDevTransport` over its life.
use mathlib.Core.List.{append-nil}
use rpi3b.Base.{
  ℕ, ◌≡◌, refl, sym, ap, ◌∙◌, none, some, List, [], ◌∷◌, ◌++◌, arith, Option-cases, inl, inr,
}
use rpi3b.I2cDev.{Files, Descriptor, close, open_dev}

-- A call of `open`, with what `::open` answers it, or of `close`.
pub data Call : Type 0 where
  opening : Descriptor → Call
  closing : Call

abbrev pub run_calls : List Call → Files → Files
run_calls [] f = f
run_calls (opening answer ∷ calls) f = run_calls calls (open_dev f answer).1
run_calls (closing ∷ calls) f = run_calls calls (close f)

abbrev pub new_files : Files
new_files = record { fd = none; opened = []; closed = [] }

abbrev held : Descriptor → List ℕ
held none = []
held (some n) = n ∷ []

-- What was opened is what was closed, and then the descriptor that is held.
abbrev IsBalanced : Files → Type 0
IsBalanced f = f.opened ≡ f.closed ++ held f.fd

close-IsClosed :
    (f : Files) → IsBalanced f → ((close f).opened ≡ (close f).closed) × ((close f).fd ≡ none)
unfolding close
close-IsClosed f h = elim (Option-cases f.fd) [
  | inl shut ↦ ground (arith, append-nil f.closed)
  | inr (n, holds) ↦ ground arith
]

open_dev-IsBalanced :
    (f : Files) (answer : Descriptor) → IsBalanced f → IsBalanced (open_dev f answer).1
unfolding open_dev
open_dev-IsBalanced f none h = (close-IsClosed f h).0 ∙ sym (append-nil (close f).closed)
open_dev-IsBalanced f (some n) h = ap (λ (l : List ℕ). l ++ n ∷ []) (close-IsClosed f h).0

close-IsBalanced : (f : Files) → IsBalanced f → IsBalanced (close f)
close-IsBalanced f h =
    let (same, shut) = close-IsClosed f h in
    same ∙ sym (append-nil (close f).closed) ∙ ap (λ d. (close f).closed ++ held d) (sym shut)

run_calls-IsBalanced :
    (calls : List Call) (f : Files) → IsBalanced f → IsBalanced (run_calls calls f)
run_calls-IsBalanced [] f h = h
run_calls-IsBalanced (opening answer ∷ calls) f h =
    run_calls-IsBalanced calls (open_dev f answer).1 (open_dev-IsBalanced f answer h)
run_calls-IsBalanced (closing ∷ calls) f h =
    run_calls-IsBalanced calls (close f) (close-IsBalanced f h)

-- After any calls of `open`, whatever `::open` answers, and of `close` on a new transport, the
-- destructor's `close` leaves no descriptor, and the descriptors closed are those opened, each
-- once, in the same order.
pub close-run_calls :
    (calls : List Call)
    → let f = close (run_calls calls new_files) in (f.fd ≡ none) × (f.closed ≡ f.opened)
close-run_calls calls =
    let (same, shut) =
      close-IsClosed (run_calls calls new_files) (run_calls-IsBalanced calls new_files refl) in
    (shut, sym same)
