-- ===== src/Console/Transmit.antt =====
-- `uart_putc` of freestanding/uart.cpp: the wait for room in the transmit FIFO. The hardware
-- supplies a word for each load of `FR`.
use rpi3b.Base.{
  ℕ, zero, suc, ◌+◌, ◌%◌, ◌≤◌, ◌<◌, ◌≡◌, sym, ap, ◌∙◌, Option, none, some, [], ◌∷◌, ◌++◌, map, ◌==◌,
  if◌then◌else◌, bit_and, arith, Bool-cases, inl, inr,
}
use mathlib.Core.List.{append_assoc, append-nil}
use rpi3b.Base.Text.{Bytes, ◌>>=◌}
use rpi3b.Console.Uart.{fr_txff}

pub record Port : Type 0 where
  -- The words that the loads of `FR` give, in order, and how many loads were made.
  pub flags : ℕ → ℕ
  pub loads : ℕ
  -- The bytes stored in `DR`, in order.
  pub sent : Bytes

-- With fuel for the loads of `FR`; `none` when they are used up.
unfoldable pub uart_putc : ℕ → Port → ℕ → Option Port
uart_putc zero p c = none
uart_putc (suc fuel) p c =
    let polled = record p { loads = p.loads + 1 } in
    let again = uart_putc fuel polled c in
    if bit_and (p.flags p.loads) fr_txff == 0
    then some (record polled { sent = p.sent ++ (c % 256) ∷ [] })
    else again

-- The characters of a text, one after the other.
unfoldable pub put_all : ℕ → Port → Bytes → Option Port
put_all fuel p [] = some p
put_all fuel p (c ∷ s) = do p' ← uart_putc fuel p c; put_all fuel p' s

abbrev HasRoom : Port → ℕ → Type 0
HasRoom p i = bit_and (p.flags (p.loads + i)) fr_txff ≡ 0

plus_zero : (n : ℕ) → n + 0 ≡ n
plus_zero n = omega arith

plus_one : (n : ℕ) → n + 1 ≡ n + suc 0
plus_one n = omega arith

shift : (n i : ℕ) → n + suc i ≡ n + 1 + i
shift n i = omega arith

-- When the first load of `FR` that shows room is the one at place j, and there is fuel for it,
-- `uart_putc` makes these j + 1 loads and then stores the low byte of the character, once.
pub uart_putc-sends :
    (fuel j : ℕ) (p : Port) (c : ℕ)
    → j < fuel
    → ((i : ℕ) → i < j → ¬ (HasRoom p i))
    → HasRoom p j
    → uart_putc fuel p c
      ≡ some (record p { loads = p.loads + suc j; sent = p.sent ++ (c % 256) ∷ [] })
unfolding uart_putc
uart_putc-sends zero j p c h full room = absurd (omega arith)
uart_putc-sends (suc fuel) zero p c h full room =
    ground (arith, plus_zero p.loads, plus_one p.loads)
uart_putc-sends (suc fuel) (suc j) p c h full room =
    let polled = record p { loads = p.loads + 1 } in
    let first : ¬ (HasRoom p 0) = full 0 (omega arith) in
    let later : uart_putc fuel polled c
        ≡ some (record polled { loads = p.loads + 1 + suc j; sent = p.sent ++ (c % 256) ∷ [] }) =
      uart_putc-sends fuel j polled c (omega arith)
        (λ i lt busy. full (suc i) (omega arith) (rw (shift p.loads i) busy))
        (rw (← shift p.loads j) room) in
    ground (arith, later, plus_zero p.loads, shift p.loads (suc j))

one_later :
    (p : Port) (i : ℕ)
    → ¬ (HasRoom p 0)
    → ((l : ℕ) → l < i → ¬ (HasRoom (record p { loads = p.loads + 1 }) l))
    → (l : ℕ) → l < suc i
    → ¬ (HasRoom p l)
one_later p i first later zero lt = first
one_later p i first later (suc l) lt = λ room. later l (omega arith) (rw (← shift p.loads l) room)

-- The place of the first load with room, from one with room below `k`.
first_room :
    (k : ℕ) (p : Port) (j : ℕ)
    → j < k
    → HasRoom p j
    → (i : ℕ) × (i < k) × ((l : ℕ) → l < i → ¬ (HasRoom p l)) × HasRoom p i
first_room zero p j h room = absurd (omega arith)
first_room (suc k) p zero h room = (0, omega arith, (λ l lt. absurd (omega arith)), room)
first_room (suc k) p (suc j) h room =
    elim (Bool-cases (bit_and (p.flags (p.loads + 0)) fr_txff == 0)) [
      | inl now ↦ (0, omega arith, (λ l lt. absurd (omega arith)), ground arith)
      | inr busy ↦
          let polled = record p { loads = p.loads + 1 } in
          let (i, below, full, room') =
            first_room k polled j (omega arith) (rw (← shift p.loads j) room) in
          (suc i, omega arith, one_later p i (ground arith) full, rw (shift p.loads i) room')
    ]

-- Of each k loads in a row, one shows room.
abbrev pub Drains : (ℕ → ℕ) → ℕ → Type 0
Drains flags k = (n : ℕ) → (j : ℕ) × (j < k) × (bit_and (flags (n + j)) fr_txff ≡ 0)

-- When of each k loads in a row one shows room, fuel for k loads is enough: a text is sent whole,
-- the low byte of each character once and in order, behind what was sent before.
pub put_all-sends :
    (s : Bytes) (fuel k : ℕ) (p : Port)
    → Drains p.flags k
    → k ≤ fuel
    → (n : ℕ) × (put_all fuel p s
        ≡ some (record p { loads = n; sent = p.sent ++ map (λ c. c % 256) s }))
unfolding put_all
put_all-sends [] fuel k p drains h =
    (p.loads, ap (λ (t : Bytes). some (record p { sent = t })) (sym (append-nil p.sent)))
put_all-sends (c ∷ s) fuel k p drains h =
    let (j, lt, room) = drains p.loads in
    let (i, below, full, room') = first_room k p j lt room in
    let sends = uart_putc-sends fuel i p c (omega arith) full room' in
    let (n, rest) =
      put_all-sends s fuel k (record p { loads = p.loads + suc i; sent = p.sent ++ (c % 256) ∷ [] })
        drains h in
    (
      n,
      rw sends (
          rest
          ∙ ap (λ (t : Bytes). some (record p { loads = n; sent = t }))
              (append_assoc p.sent ((c % 256) ∷ []) (map (λ (c : ℕ). c % 256) s))),
    )
