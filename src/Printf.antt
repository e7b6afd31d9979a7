-- ===== src/Printf.antt =====
-- `printf` of freestanding/libc_min.cpp. `none` is a call whose behaviour C++ does not define: an
-- argument that is missing or of another kind, the negation of the least `long long`, and a format
-- that ends inside a conversion, where the loop steps over the terminator.
pub mod Append
mod Hexadecimal
pub mod Pieces
use rpi3b.Base.{
  ℕ, zero, suc, ◌+◌, ◌-◌, ◌*◌, ◌%◌, ◌^◌, ◌≡◌, refl, Bool, true, false, ◌||◌, Option, none, some,
  List, [], ◌∷◌, ◌++◌, ltb, ◌==◌, if◌then◌else◌,
}
use rpi3b.Base.Text.{Bytes, codes, ◌>>=◌}
use rpi3b.Console.{uart_puts, print_uint, print_rounds}

-- A variadic argument: a number or pointer in a 64-bit slot, or a C string.
pub data Arg : Type 0 where
  word : ℕ → Arg
  text : Bytes → Arg

-- Whether the loop stands at a plain character, or behind a `%` and maybe some `l`.
pub data Mode : Type 0 where
  plain : Mode
  conversion : Bool → Mode

abbrev pub word_arg : List Arg → Option (ℕ × List Arg)
word_arg (word x ∷ args) = some (x, args)
word_arg (text s ∷ args) = none
word_arg [] = none

abbrev pub text_arg : List Arg → Option (Bytes × List Arg)
text_arg (text s ∷ args) = some (s, args)
text_arg (word x ∷ args) = none
text_arg [] = none

-- The values of `long` and of `int` lie from minus this number to below it.
abbrev pub half : Bool → ℕ
half true = 2 ^ 63
half false = 2 ^ 31

-- `case 'd': case 'i':`, on the slot read as a `long` or as an `int`.
unfoldable pub put_signed : Bool → ℕ → Option Bytes
put_signed lng x =
    let v = x % (2 * half lng) in
    if ltb v (half lng)
    then print_uint v 10 false
    else if v == half true
    then none
    else do digits ← print_uint (2 * half lng - v) 10 false; some (b'-' ∷ digits)

unfoldable pub convert : Bool → ℕ → List Arg → Option (Bytes × List Arg)
convert lng c args =
    if c == b'c'
    then (do (x, rest) ← word_arg args; some ((x % 256) ∷ [], rest))
    else if c == b's'
    then (do (s, rest) ← text_arg args; some (uart_puts s, rest))
    else if c == b'd' || c == b'i'
    then (do (x, rest) ← word_arg args; out ← put_signed lng x; some (out, rest))
    else if c == b'u'
    then (do
      (x, rest) ← word_arg args
      out ← print_uint (x % (2 * half lng)) 10 false
      some (out, rest))
    else if c == b'x'
    then (do
      (x, rest) ← word_arg args
      out ← print_uint (x % (2 * half lng)) 16 false
      some (out, rest))
    else if c == b'X'
    then (do
      (x, rest) ← word_arg args
      out ← print_uint (x % (2 * half lng)) 16 true
      some (out, rest))
    else if c == b'p'
    then (do
      (x, rest) ← word_arg args
      out ← print_uint (x % 2 ^ 64) 16 false
      some (b'0' ∷ b'x' ∷ out, rest))
    else if c == b'%'
    then some (b'%' ∷ [], args)
    else some (b'%' ∷ c ∷ [], args)

-- What the loop does at one character of the format.
unfoldable pub step : Mode → ℕ → List Arg → Option (Bytes × Mode × List Arg)
step plain c args =
    if c == b'%' then some ([], conversion false, args) else some (c ∷ [], plain, args)
step (conversion lng) c args =
    if c == b'l'
    then some ([], conversion true, args)
    else (do (out, rest) ← convert lng c args; some (out, plain, rest))

-- The loop over a part of the format.
unfoldable pub run : Mode → Bytes → List Arg → Option (Bytes × Mode × List Arg)
run mode [] args = some ([], mode, args)
run mode (c ∷ fmt) args = do
  (out, mode', args') ← step mode c args
  (out', mode'', args'') ← run mode' fmt args'
  some (out ++ out', mode'', args'')

abbrev pub at_end : Mode → Option (Unit {0})
at_end plain = some tt
at_end (conversion lng) = none

-- What is sent; the value returned is always 0.
unfoldable pub printf : Bytes → List Arg → Option Bytes
printf fmt args = do (out, mode, rest) ← run plain fmt args; _ ← at_end mode; some out
