-- ===== src/Tests/ConsoleRuns.antt =====
-- Runs of the console and of `printf`.
use rpi3b.Base.{
  false, ℕ, ◌-◌, ◌%◌, ◌^◌, ◌≡◌, refl, ◌≢◌, true, some, List, [], ◌∷◌, ◌++◌, map, ◌==◌,
  if◌then◌else◌, arith,
}
use rpi3b.Base.Int.{negsuc}
use rpi3b.Base.Text.{Bytes, codes}
use rpi3b.Console.{
  print_uint, print_rounds, uart_dec, dec_rounds, uart_hex, hex_rounds, nibble, uart_puts,
}
use rpi3b.Console.Decimal.{print_uint-uart_dec}
use rpi3b.Console.Digits.{read, Leads, read-print_uint}
use rpi3b.Console.Transmit.{Port, Drains, put_all, put_all-sends}
use rpi3b.Printf.{printf, run, step, convert, put_signed, word, text}
use rpi3b.Printf.Pieces.{
  Piece, literal, percent, string, signed, hexadecimal, pointer, all_of, format_of, args_of,
  text_of, printf-pieces,
}
use rpi3b.Word.{◌>>◌}

read-print_uint_example :
    (out : Bytes) × (print_uint 0x2a0f 16 true ≡ some out)
    × (read 16 0 out ≡ some 0x2a0f)
    × (◌≢◌ {A = ℕ} 0x2a0f 0 → Leads out)
read-print_uint_example = read-print_uint 0x2a0f 16 true (omega arith) (omega arith) (omega arith)

print_uint-uart_dec_example : print_uint 1024 10 true ≡ some (uart_dec 1024)
print_uint-uart_dec_example = print_uint-uart_dec 1024 true (omega arith)

-- Each third load of the flags shows room.
abbrev slow_port : Port
slow_port = record { flags = λ n. if n % 3 == 2 then 0 else 0x20; loads = 0; sent = [] }

slow_port-Drains : Drains slow_port.flags 3
slow_port-Drains n = (2 - n % 3, omega arith, ground arith)

put_all-sends_example :
    (n : ℕ) × (put_all 3 slow_port (codes "Hi")
      ≡ some (record slow_port { loads = n; sent = [] ++ map (λ c. c % 256) (codes "Hi") }))
put_all-sends_example = put_all-sends (codes "Hi") 3 3 slow_port slow_port-Drains (omega arith)

abbrev pieces : List Piece
pieces =
    literal b'n'
    ∷ literal b'='
    ∷ signed true (negsuc 41)
    ∷ percent
    ∷ string (codes " ok\n")
    ∷ hexadecimal false true 0x2a0f
    ∷ pointer 0x3f201000
    ∷ []

printf-pieces_example :
    printf (all_of format_of pieces) (all_of args_of pieces) ≡ some (all_of text_of pieces)
printf-pieces_example = printf-pieces pieces (ground arith)

dec_test : uart_dec 1024 ≡ codes "1024"
unfolding uart_dec dec_rounds
dec_test = refl

hex_test : uart_hex 0x2a0f ≡ codes "0x0000000000002a0f"
unfolding uart_hex hex_rounds nibble ◌>>◌
hex_test = refl

print_test : print_uint 0x2a0f 16 true ≡ some (codes "2A0F")
unfolding print_uint print_rounds
print_test = refl

printf_test :
    printf
      (codes "GPIO @ %p: %s, %ld of %u%%")
      (word 0x3F200000 ∷ text (codes "ready") ∷ word (2 ^ 64 - 5) ∷ word 7 ∷ [])
    ≡ some (codes "GPIO @ 0x3f200000: ready, -5 of 7%")
unfolding printf run step convert put_signed print_uint print_rounds uart_puts
printf_test = refl
