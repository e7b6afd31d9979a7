-- ===== src/Tests/BusRuns.antt =====
-- Runs of the polling transport against slaves that answer each poll alike, or that count.
use rpi3b.Base.{
  ℕ, ◌+◌, ◌≡◌, refl, ap, ◌∙◌, Bool-cases, inl, inr, le→leb, true, false, leb, if◌then◌else◌, arith,
  some, List, [], ◌∷◌, length,
}
use rpi3b.Word.{◌<<◌}
use rpi3b.Word.Single.{is_set}
use rpi3b.Mmio.{load}
use rpi3b.I2c.{start_read}
use rpi3b.I2cBus.{
  ok, Slave, Transport, prime, transmit, receive, write, read, write_read, s_done, s_txd, s_err,
  s_clkt, poll_loop, write_pass, read_pass, feed, drain, classify, then_read,
}
use rpi3b.I2cBus.Write.{IsTransmitted, primed, pushes, transmit-IsTransmitted}
use rpi3b.I2cBus.Serve.{Serves, write-Serves}
use rpi3b.I2cBus.Supply.{Supplies, read-Supplies}
use rpi3b.I2cBus.Read.{IsReceived, receive-IsReceived}
use rpi3b.Tests.Data.{filled_with}

-- Every register reads as one word.
abbrev pub constant : ℕ → Slave ℕ
constant v w m = (w, λ i. v)

-- DONE, TXD and RXD.
abbrev pub ready : ℕ
ready = 0x32

abbrev pub bus : Transport
bus = record { i2c = filled_with 0; gpio = filled_with 0; divider = 2500; max_spins = 6 }

abbrev pub packet : List ℕ
packet = 0x10 ∷ 0x20 ∷ 0x1ff ∷ []

-- DONE once the transfer's three bytes were stored.
abbrev pub counting : Slave ℕ
counting w m = (
  w + 1,
  λ i.
      if leb (3 + length (primed (constant 0) bus 0 0x50 packet)) (length m.stores)
      then 0x12
      else 0x10,
)

counted_bits :
    (n k : ℕ)
    → let status : ℕ = if leb n k then 0x12 else 0x10 in
      (is_set status s_err ≡ false)
      × (is_set status s_clkt ≡ false)
      × (is_set status s_txd ≡ true)
      × (is_set status s_done ≡ leb n k)
unfolding ◌<<◌
counted_bits n k = elim (Bool-cases (leb n k)) [
  | inl e ↦ rw e (refl, refl, refl, refl)
  | inr e ↦ rw e (refl, refl, refl, refl)
]

counting-Serves : Serves counting (pushes packet (primed counting bus 0 0x50 packet))
counting-Serves =
    let n = 3 + length (primed counting bus 0 0x50 packet) in
    record {
      no_err = λ w m. (counted_bits n (length m.stores)).0;
      no_clkt = λ w m. (counted_bits n (length m.stores)).1;
      has_room = λ w m. (counted_bits n (length m.stores)).2;
      reports_done = λ w m e.
          (counted_bits n (length m.stores)).3
          ∙ le→leb n (length m.stores) (omega (arith, ap length e));
    }

write-Serves_example :
    let (r, t', w') = write counting bus 0 0x50 (some packet) in
    (r ≡ ok) × (t'.i2c.stores ≡ pushes packet (primed counting bus 0 0x50 packet))
write-Serves_example =
    write-Serves counting bus 0 0x50 packet counting-Serves (omega arith) (omega arith)
      (omega arith)

pub ready-Supplies : Supplies (constant ready)
unfolding ◌<<◌
ready-Supplies = record {
  no_err = λ w m. refl;
  no_clkt = λ w m. refl;
  has_byte = λ w m. refl;
  reports_done = λ w m. refl;
}

read-Supplies_example :
    let (r, t', w', buf) = read (constant ready) bus 0 0x50 (some packet) in
    (r ≡ ok) × (buf ≡ some (0x32 ∷ 0x32 ∷ 0x32 ∷ []))
read-Supplies_example =
    read-Supplies (constant ready) bus 0 0x50 packet ready-Supplies (omega arith) (omega arith)
      (omega arith)

transmit_example :
    let e = transmit counting bus 0 0x50 packet in
    IsTransmitted packet (primed counting bus 0 0x50 packet) e.result e.regs
transmit_example = transmit-IsTransmitted counting bus 0 0x50 packet

receive_example :
    let e = receive (constant ready) bus 0 0x50 packet in
    IsReceived 3 (start_read (prime bus.i2c 0x50 3)).stores e.result e.regs e.left
receive_example = receive-IsReceived (constant ready) bus 0 0x50 packet

supplied-ok : (read (constant ready) bus 0 0x50 (some packet)).0 ≡ ok
supplied-ok =
    (read-Supplies (constant ready) bus 0 0x50 packet ready-Supplies (omega arith) (omega arith)
      (omega arith)).0

write_read_runs : (write_read (constant ready) bus 0 0x50 (some packet) (some packet)).0 ≡ ok
unfolding write_read write read transmit receive poll_loop write_pass read_pass feed drain classify
    load then_read ◌<<◌
write_read_runs = refl
