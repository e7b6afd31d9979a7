-- ===== src/Devices/Announced.antt =====
-- What the constructor of the interrupt registers prints.
use mathlib.Core.List.{append-nil}
use rpi3b.Base.{
  ℕ, zero, suc, ◌+◌, ◌*◌, ◌%◌, ◌^◌, ◌≤◌, ◌<◌, ◌≡◌, ◌∙◌, ap, refl, true, some, [], ◌∷◌, ◌++◌, arith,
}
use rpi3b.Base.Text.{Bytes, codes, ◌>>=◌}
use rpi3b.Console.{print_uint}
use rpi3b.Console.Digits.{read, read-print_uint}
use rpi3b.Devices.{announce, announce_rounds}
use rpi3b.Printf.{printf, run, step, convert, plain, word}
use rpi3b.Printf.Append.{printf-append}

run-hex :
    (a : ℕ) (out : Bytes)
    → a < 2 ^ 32
    → print_uint a 16 true ≡ some out
    → run plain (codes "%X") (word a ∷ []) ≡ some (out, plain, [])
unfolding run step convert
run-hex a out lt printed =
    let same : a % 2 ^ 32 ≡ a = omega arith in
    rw same (rw printed (ap (λ (t : Bytes). some (t, plain, [])) (append-nil out)))

abbrev label : Bytes
label = codes "Interrupt Register is 0x"

run-label : run plain label [] ≡ some (label, plain, [])
unfolding run step
run-label = refl

printf-newline : printf (codes "\n") [] ≡ some (codes "\n")
unfolding printf run step
printf-newline = refl

printf-line :
    (a : ℕ) (out : Bytes)
    → a < 2 ^ 32
    → print_uint a 16 true ≡ some out
    → printf (codes "Interrupt Register is 0x%X\n") (word a ∷ [])
      ≡ some (label ++ (out ++ codes "\n"))
printf-line a out lt printed =
    printf-append label (codes "%X\n") [] (word a ∷ []) label run-label
    ∙ ap (λ o. o >>= λ more. some (label ++ more))
        (printf-append (codes "%X") (codes "\n") (word a ∷ []) [] out (run-hex a out lt printed)
          ∙ ap (λ o. o >>= λ more. some (out ++ more)) printf-newline)

-- One line for each of so many registers, from an index on: the text, the address of the register
-- in hexadecimal digits, and the end of the line.
abbrev pub Lines : ℕ → ℕ → ℕ → Bytes → Type 0
Lines at zero idx out = out ≡ []
Lines at (suc rounds) idx out =
    (digits : Bytes) × (rest : Bytes) × (out ≡ (label ++ (digits ++ codes "\n")) ++ rest)
    × (read 16 0 digits ≡ some (at + 4 * idx))
    × Lines at rounds (idx + 1) rest

announce_rounds-Lines :
    (at rounds idx : ℕ)
    → at + 4 * (idx + rounds) ≤ 2 ^ 32
    → (out : Bytes) × (announce_rounds at rounds idx ≡ some out) × Lines at rounds idx out
unfolding announce_rounds
announce_rounds-Lines at zero idx le = ([], refl, refl)
announce_rounds-Lines at (suc rounds) idx le =
    let (digits, printed, same, leads) =
      read-print_uint (at + 4 * idx) 16 true (omega arith) (omega arith) (omega arith) in
    let (rest, sent, lines) = announce_rounds-Lines at rounds (idx + 1) (omega arith) in
    (
      (label ++ (digits ++ codes "\n")) ++ rest,
      rw (printf-line (at + 4 * idx) digits (omega arith) printed, sent) refl,
      (digits, rest, refl, same, lines),
    )

-- Over registers below the address 2 ^ 32, the constructor prints a line for each of the ten, in
-- order, with its address in hexadecimal, and an empty line.
pub announce-Lines :
    (at : ℕ)
    → at + 40 ≤ 2 ^ 32
    → (out : Bytes) × (announce at ≡ some (out ++ codes "\n")) × Lines at 10 0 out
unfolding announce
announce-Lines at le =
    let (out, sent, lines) = announce_rounds-Lines at 10 0 le in
    (out, rw (sent, printf-newline) refl, lines)
