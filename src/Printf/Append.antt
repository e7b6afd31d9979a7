-- ===== src/Printf/Append.antt =====
-- The loop of `printf` over a format in two parts.
use mathlib.Core.List.{append_assoc}
use rpi3b.Base.{
  ℕ, ◌≡◌, refl, sym, ap, ◌∙◌, Bool, Option, none, some, List, [], ◌∷◌, ◌++◌, arith, inl, inr,
  Option-cases,
}
use rpi3b.Base.Text.{Bytes, ◌>>=◌}
use rpi3b.Printf.{Arg, word, text, Mode, plain, conversion, convert, step, run, at_end, printf}

-- The result with `more` arguments left behind those that are left.
abbrev pub followed : List Arg → Option (Bytes × Mode × List Arg) → Option (Bytes × Mode × List Arg)
followed more none = none
followed more (some (out, mode, rest)) = some (out, mode, rest ++ more)

-- The result with `out` sent before it.
abbrev pub after : Bytes → Option (Bytes × Mode × List Arg) → Option (Bytes × Mode × List Arg)
after out none = none
after out (some (out', mode, rest)) = some (out ++ out', mode, rest)

convert-more :
    (lng : Bool) (c : ℕ) (args more : List Arg) (out : Bytes) (rest : List Arg)
    → convert lng c args ≡ some (out, rest)
    → convert lng c (args ++ more) ≡ some (out, rest ++ more)
unfolding convert
convert-more lng c [] more out rest e = ground arith
convert-more lng c (word x ∷ args) more out rest e = ground arith
convert-more lng c (text s ∷ args) more out rest e = ground arith

step-more :
    (mode : Mode) (c : ℕ) (args more : List Arg) (out : Bytes) (mode' : Mode) (rest : List Arg)
    → step mode c args ≡ some (out, mode', rest)
    → step mode c (args ++ more) ≡ some (out, mode', rest ++ more)
unfolding step
step-more plain c args more out mode' rest e = ground arith
step-more (conversion lng) c args more out mode' rest e = elim (Option-cases (convert lng c args)) [
  | inl failed ↦ ground arith
  | inr ((out', rest'), found) ↦ ground (arith, convert-more lng c args more out' rest' found)
]

-- Arguments behind those that a part of the format takes are left alone.
pub run-more :
    (fmt : Bytes) (mode : Mode) (args more : List Arg) (out : Bytes) (mode' : Mode)
    (rest : List Arg)
    → run mode fmt args ≡ some (out, mode', rest)
    → run mode fmt (args ++ more) ≡ some (out, mode', rest ++ more)
unfolding run
run-more [] mode args more out mode' rest e = ground arith
run-more (c ∷ fmt) mode args more out mode' rest e = elim (Option-cases (step mode c args)) [
  | inl failed ↦ ground arith
  | inr ((out₁, mode₁, rest₁), first) ↦ elim (Option-cases (run mode₁ fmt rest₁)) [
    | inl failed ↦ ground arith
    | inr ((out₂, mode₂, rest₂), second) ↦ ground (
      arith,
      step-more mode c args more out₁ mode₁ rest₁ first,
      run-more fmt mode₁ rest₁ more out₂ mode₂ rest₂ second,
    )
  ]
]

run-nil : (mode : Mode) (args : List Arg) → run mode [] args ≡ some ([], mode, args)
unfolding run
run-nil mode args = refl

-- The loop goes on with `g` from where it stands after a first part.
abbrev onward : Bytes → Bytes × Mode × List Arg → Option (Bytes × Mode × List Arg)
onward g (out, mode, rest) = after out (run mode g rest)

after-nil : (r : Option (Bytes × Mode × List Arg)) → r ≡ after [] r
after-nil none = refl
after-nil (some (out, mode, rest)) = refl

after-after :
    (a b : Bytes) (r : Option (Bytes × Mode × List Arg)) → after a (after b r) ≡ after (a ++ b) r
after-after a b none = refl
after-after a b (some (out, mode, rest)) =
    ap (λ (t : Bytes). some (t, mode, rest)) (sym (append_assoc a b out))

after-bind :
    (a g : Bytes) (r : Option (Bytes × Mode × List Arg))
    → after a (r >>= onward g) ≡ (after a r >>= onward g)
after-bind a g none = refl
after-bind a g (some (out, mode, rest)) = after-after a out (run mode g rest)

bind_after :
    (a : Bytes) (r : Option (Bytes × Mode × List Arg))
    → (r >>= λ (out, mode, rest). some (a ++ out, mode, rest)) ≡ after a r
bind_after a none = refl
bind_after a (some (out, mode, rest)) = refl

run-cons :
    (c : ℕ) (f : Bytes) (mode : Mode) (args : List Arg)
    → run mode (c ∷ f) args
      ≡ (step mode c args >>= λ (out, mode', rest). after out (run mode' f rest))
unfolding run
run-cons c f mode args = elim (Option-cases (step mode c args)) [
  | inl failed ↦ rw failed refl
  | inr ((out, mode', rest), first) ↦ rw first (bind_after out (run mode' f rest))
]

pub run-append :
    (f g : Bytes) (mode : Mode) (args : List Arg)
    → run mode (f ++ g) args ≡ (run mode f args >>= onward g)
run-append [] g mode args =
    after-nil (run mode g args) ∙ sym (ap (λ t. t >>= onward g) (run-nil mode args))
run-append (c ∷ f) g mode args = elim (Option-cases (step mode c args)) [
  | inl failed ↦ rw (run-cons c (f ++ g) mode args, run-cons c f mode args, failed) refl
  | inr ((out, mode', rest), first) ↦
      rw (run-cons c (f ++ g) mode args, run-cons c f mode args, first, run-append f g mode' rest)
        (after-bind out g (run mode' f rest))
]

finish-after :
    (a : Bytes) (r : Option (Bytes × Mode × List Arg))
    → (after a r >>= λ (out, mode, rest). at_end mode >>= λ _. some out)
      ≡ ((r >>= λ (out, mode, rest). at_end mode >>= λ _. some out) >>= λ out'. some (a ++ out'))
finish-after a none = refl
finish-after a (some (out, plain, rest)) = refl
finish-after a (some (out, conversion lng, rest)) = refl

-- When `printf` comes to the end of a format, with its arguments used up and no conversion open,
-- having sent `out`, then for that format with another one behind it, and the arguments of both,
-- it sends `out` and then what it sends for the other one.
pub printf-append :
    (f g : Bytes) (args more : List Arg) (out : Bytes)
    → run plain f args ≡ some (out, plain, [])
    → printf (f ++ g) (args ++ more) ≡ (printf g more >>= λ out'. some (out ++ out'))
unfolding printf
printf-append f g args more out e =
    rw (run-append f g plain (args ++ more), run-more f plain args more out plain [] e)
      (finish-after out (run plain g more))
