-- ===== src/Console/Uart.antt =====
-- The PL011 registers of freestanding/uart.cpp.
use rpi3b.Base.{ℕ}

-- `enum Reg`, as word indices of the block at `kBase`.
abbrev pub dr : ℕ
dr = 0

abbrev pub fr : ℕ
fr = 6

abbrev pub ibrd : ℕ
ibrd = 9

abbrev pub fbrd : ℕ
fbrd = 10

abbrev pub lcrh : ℕ
lcrh = 11

abbrev pub cr : ℕ
cr = 12

abbrev pub imsc : ℕ
imsc = 14

abbrev pub icr : ℕ
icr = 17

-- `FR_TXFF`: the transmit FIFO is full.
abbrev pub fr_txff : ℕ
fr_txff = 32
