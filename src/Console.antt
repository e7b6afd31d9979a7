-- ===== src/Console.antt =====
-- freestanding/uart.cpp and `print_uint` of freestanding/libc_min.cpp: the console. A function that
-- prints gives the bytes that it sends, in order; `uart_putc` itself, which waits for room in the
-- transmit FIFO, is in Console/Transmit.
pub mod Uart
pub mod Transmit
pub mod Digits
pub mod Decimal
pub mod Hex
pub mod Lines
use rpi3b.Base.{
  ℕ, zero, suc, ◌+◌, ◌-◌, ◌*◌, ◌/◌, ◌%◌, ltb, ◌==◌, if◌then◌else◌, bit_and, bit_or, Bool, true,
  false, Option, none, some, List, [], ◌∷◌, ◌++◌, get_elem?, ◌≡◌, refl,
}
use rpi3b.Base.Text.{Bytes, codes, ◌>>=◌}
use rpi3b.Console.Uart
use rpi3b.Mmio.{Mmio, store}
use rpi3b.Word.{◌<<◌, ◌>>◌}

unfoldable pub uart_init : Mmio → Mmio
unfolding store ◌<<◌
uart_init m =
    let off = store m Uart.cr 0 in
    let cleared = store off Uart.icr 0x7FF in
    let framed = store cleared Uart.lcrh (bit_or (1 << 4) (3 << 5)) in
    store framed Uart.cr (bit_or (bit_or (1 << 0) (1 << 8)) (1 << 9))

-- A C string is the list of its bytes before the terminator.
unfoldable pub uart_puts : Bytes → Bytes
uart_puts [] = []
uart_puts (c ∷ s) = (if c == b'\n' then b'\r' ∷ c ∷ [] else c ∷ []) ++ uart_puts s

-- `nib < 10 ? '0' + nib : 'a' + (nib - 10)`
unfoldable pub nibble : ℕ → ℕ
nibble nib = if ltb nib 10 then b'0' + nib else b'a' + (nib - 10)

-- The rounds of `uart_hex` in which `shift` is below 4 * n.
unfoldable pub hex_rounds : ℕ → ℕ → Bytes
hex_rounds zero v = []
hex_rounds (suc n) v = nibble (bit_and (v >> (4 * n)) 0xF) ∷ hex_rounds n v

unfoldable pub uart_hex : ℕ → Bytes
uart_hex v = b'0' ∷ b'x' ∷ hex_rounds 16 v

-- `while(v && i < 20)`, with the room left in `buf`. The buffer is given from its last written cell
-- down, as the loop after it sends it.
unfoldable pub dec_rounds : ℕ → ℕ → Bytes → Bytes
dec_rounds zero v buf = buf
dec_rounds (suc room) v buf =
    let rest = dec_rounds room (v / 10) ((b'0' + v % 10) ∷ buf) in if v == 0 then buf else rest

unfoldable pub uart_dec : ℕ → Bytes
uart_dec v = if v == 0 then b'0' ∷ [] else dec_rounds 20 v []

-- `digits[d]`; the literal has sixteen digits, and `none` is a read of anything behind them.
unfoldable pub digit : Bool → ℕ → Option ℕ
digit upper d = get_elem? (if upper then codes "0123456789ABCDEF" else codes "0123456789abcdef") d

-- `while(v && i < 24)` of `print_uint`.
unfoldable pub print_rounds : ℕ → ℕ → Bool → ℕ → Bytes → Option Bytes
unfolding digit
print_rounds zero base upper v buf = some buf
print_rounds (suc room) base upper v buf =
    let rest = (do c ← digit upper (v % base); print_rounds room base upper (v / base) (c ∷ buf)) in
    if v == 0 then some buf else rest

unfoldable pub print_uint : ℕ → ℕ → Bool → Option Bytes
print_uint v base upper = if v == 0 then some (b'0' ∷ []) else print_rounds 24 base upper v []
