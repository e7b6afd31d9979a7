-- ===== src/Printf/Pieces.antt =====
-- What `printf` promises: a format is a row of pieces, and each sends its own text.
use mathlib.Core.List.{append-nil}
use rpi3b.Base.{
  ℕ, ◌+◌, ◌-◌, ◌*◌, ◌%◌, ◌^◌, ◌<◌, ◌≡◌, ◌≢◌, refl, ap, ◌∙◌, Bool, true, false, Option, some, List,
  [], ◌∷◌, ◌++◌, arith,
}
use rpi3b.Base.Int.{ℤ, pos, negsuc}
use rpi3b.Base.Text.{Bytes, ◌>>=◌}
use rpi3b.Console.{uart_puts, uart_dec, print_uint}
use rpi3b.Console.Decimal.{print_uint-uart_dec}
use rpi3b.Printf.{Arg, Mode, word, text, plain, half, put_signed, convert, step, run, printf}
use rpi3b.Printf.Append.{printf-append}
use rpi3b.Printf.Hexadecimal.{hex_text, print_uint-hex_text}

-- The pieces: plain characters, `%%`, `%c`, `%s`, `%d` or `%ld`, `%u` or `%lu`, `%x` or `%X` or one
-- of them with `l`, and `%p`.
pub data Piece : Type 0 where
  literal : ℕ → Piece
  percent : Piece
  character : ℕ → Piece
  string : Bytes → Piece
  signed : Bool → ℤ → Piece
  unsigned : Bool → ℕ → Piece
  hexadecimal : Bool → Bool → ℕ → Piece
  pointer : ℕ → Piece

abbrev pub letter : Bool → ℕ → Bytes
letter true c = b'%' ∷ b'l' ∷ c ∷ []
letter false c = b'%' ∷ c ∷ []

abbrev pub hex_letter : Bool → ℕ
hex_letter true = b'X'
hex_letter false = b'x'

abbrev pub format_of : Piece → Bytes
format_of (literal c) = c ∷ []
format_of percent = b'%' ∷ b'%' ∷ []
format_of (character c) = b'%' ∷ b'c' ∷ []
format_of (string s) = b'%' ∷ b's' ∷ []
format_of (signed lng i) = letter lng b'd'
format_of (unsigned lng n) = letter lng b'u'
format_of (hexadecimal lng upper n) = letter lng (hex_letter upper)
format_of (pointer n) = b'%' ∷ b'p' ∷ []

-- A number in two's complement, of 64 bits for a `long` and of 32 for an `int`.
abbrev pub encode : Bool → ℤ → ℕ
encode lng (pos n) = n
encode lng (negsuc n) = 2 * half lng - 1 - n

abbrev pub args_of : Piece → List Arg
args_of (literal c) = []
args_of percent = []
args_of (character c) = word c ∷ []
args_of (string s) = text s ∷ []
args_of (signed lng i) = word (encode lng i) ∷ []
args_of (unsigned lng n) = word n ∷ []
args_of (hexadecimal lng upper n) = word n ∷ []
args_of (pointer n) = word n ∷ []

abbrev pub integer_text : ℤ → Bytes
integer_text (pos n) = uart_dec n
integer_text (negsuc n) = b'-' ∷ uart_dec (n + 1)

abbrev pub text_of : Piece → Bytes
text_of (literal c) = c ∷ []
text_of percent = b'%' ∷ []
text_of (character c) = (c % 256) ∷ []
text_of (string s) = uart_puts s
text_of (signed lng i) = integer_text i
text_of (unsigned lng n) = uart_dec n
text_of (hexadecimal lng upper n) = hex_text upper n
text_of (pointer n) = b'0' ∷ b'x' ∷ hex_text false n

-- The integers of the type but the least `long`.
abbrev pub InRange : Bool → ℤ → Type 0
InRange lng (pos n) = n < half lng
InRange lng (negsuc n) = (n < half lng) × (n + 1 ≢ half true)

abbrev pub IsPiece : Piece → Type 0
IsPiece (literal c) = c ≢ b'%'
IsPiece percent = Unit {0}
IsPiece (character c) = Unit {0}
IsPiece (string s) = Unit {0}
IsPiece (signed lng i) = InRange lng i
IsPiece (unsigned lng n) = n < 2 * half lng
IsPiece (hexadecimal lng upper n) = n < 2 * half lng
IsPiece (pointer n) = n < 2 ^ 64

abbrev pub ArePieces : List Piece → Type 0
ArePieces [] = Unit {0}
ArePieces (p ∷ ps) = IsPiece p × ArePieces ps

abbrev pub all_of {ℓ} : {A : Type ℓ} → (Piece → List A) → List Piece → List A
all_of f [] = []
all_of f (p ∷ ps) = f p ++ all_of f ps

decimal : (n : ℕ) → n < 2 ^ 64 → print_uint n 10 false ≡ some (uart_dec n)
decimal n h = print_uint-uart_dec n false h

put_signed-encode :
    (lng : Bool) (i : ℤ) → InRange lng i → put_signed lng (encode lng i) ≡ some (integer_text i)
unfolding put_signed
put_signed-encode true (pos n) h = ground (arith, decimal n)
put_signed-encode false (pos n) h = ground (arith, decimal n)
put_signed-encode true (negsuc n) h = ground (arith, decimal (n + 1))
put_signed-encode false (negsuc n) h = ground (arith, decimal (n + 1))

wrapped : (lng : Bool) (n : ℕ) → n < 2 * half lng → n % (2 * half lng) ≡ n
wrapped true n h = omega arith
wrapped false n h = omega arith

hexadecimal-text :
    (lng upper : Bool) (n : ℕ)
    → n < 2 * half lng
    → print_uint (n % (2 * half lng)) 16 upper ≡ some (hex_text upper n)
hexadecimal-text true upper n h =
    ap (λ (t : ℕ). print_uint t 16 upper) (wrapped true n h)
    ∙ print_uint-hex_text n upper (omega arith)
hexadecimal-text false upper n h =
    ap (λ (t : ℕ). print_uint t 16 upper) (wrapped false n h)
    ∙ print_uint-hex_text n upper (omega arith)

sent :
    (out : Bytes)
    → ◌≡◌ {A = Option (Bytes × Mode × List Arg)}
        (some (out ++ [], plain, []))
        (some (out, plain, []))
sent out = ap (λ (t : Bytes). some (t, plain, [])) (append-nil out)

unsigned-decimal :
    (lng : Bool) (n : ℕ)
    → n < 2 * half lng
    → print_uint (n % (2 * half lng)) 10 false ≡ some (uart_dec n)
unsigned-decimal true n h =
    ap (λ (t : ℕ). print_uint t 10 false) (wrapped true n h) ∙ decimal n (omega arith)
unsigned-decimal false n h =
    ap (λ (t : ℕ). print_uint t 10 false) (wrapped false n h) ∙ decimal n (omega arith)

printf-nil : printf [] [] ≡ some []
unfolding printf run
printf-nil = refl

Piece-run :
    (p : Piece) → IsPiece p → run plain (format_of p) (args_of p) ≡ some (text_of p, plain, [])
unfolding run step convert
Piece-run (literal c) h = ground arith
Piece-run percent h = refl
Piece-run (character c) h = refl
Piece-run (string s) h = sent (uart_puts s)
Piece-run (signed true i) h = rw (put_signed-encode true i h) (sent (integer_text i))
Piece-run (signed false i) h = rw (put_signed-encode false i h) (sent (integer_text i))
Piece-run (unsigned true n) h = rw (unsigned-decimal true n h) (sent (uart_dec n))
Piece-run (unsigned false n) h = rw (unsigned-decimal false n h) (sent (uart_dec n))
Piece-run (hexadecimal true true n) h = rw (hexadecimal-text true true n h) (sent (hex_text true n))
Piece-run (hexadecimal true false n) h =
    rw (hexadecimal-text true false n h) (sent (hex_text false n))
Piece-run (hexadecimal false true n) h =
    rw (hexadecimal-text false true n h) (sent (hex_text true n))
Piece-run (hexadecimal false false n) h =
    rw (hexadecimal-text false false n h) (sent (hex_text false n))
Piece-run (pointer n) h =
    rw (hexadecimal-text true false n h) (sent (b'0' ∷ b'x' ∷ hex_text false n))

-- For a row of pieces, each with a value of its type and no integer the least `long`, `printf` on
-- their formats and arguments sends their texts, in order: a plain character other than `%` as it
-- is, a `%` for `%%`, the low byte of a character, a string by `uart_puts`, the integers in decimal,
-- with a minus sign before a negative one, and in base sixteen with no zeros before them in the
-- letters that the format asks for, and a pointer in base sixteen behind "0x".
pub printf-pieces :
    (ps : List Piece)
    → ArePieces ps
    → printf (all_of format_of ps) (all_of args_of ps) ≡ some (all_of text_of ps)
printf-pieces [] h = printf-nil
printf-pieces (p ∷ ps) h =
    printf-append (format_of p) (all_of format_of ps) (args_of p) (all_of args_of ps) (text_of p)
      (Piece-run p h.0)
    ∙ ap (λ o. o >>= λ out. some (text_of p ++ out)) (printf-pieces ps h.1)
