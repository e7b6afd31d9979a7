-- ===== src/I2cTransport/Client.antt =====
-- `read_reg` and `write_reg` over any transport that keeps its promise.
use rpi3b.Base.{ℕ, ◌<◌, ◌≤◌, ◌≡◌, ◌≢◌, refl, false, some, List, [], ◌∷◌, arith}
use rpi3b.I2cBus.{bad_arg, bad_args}
use rpi3b.I2cTransport.{I2cTransport, IsTransport, SameLength, read_reg, write_reg}

nonempty-args :
    (addr : ℕ) (cells : List ℕ) → addr ≤ 0x7f → cells ≢ [] → bad_args addr (some cells) ≡ false
nonempty-args addr [] low ne = absurd (ne refl)
nonempty-args addr (c ∷ cells) low ne = ground arith

-- On every transport that keeps the interface's promise: at an address above 0x7f both register
-- accesses give `bad_arg`, with the state and the buffer as they were; at any other address
-- `write_reg` gives another result, and so does `read_reg` with a buffer that is not empty; and
-- `read_reg` keeps the length of its buffer.
pub register_accesses :
    {S : Type 0} (t : I2cTransport S) (s : S) (addr reg value : ℕ) (cells : List ℕ)
    → IsTransport t
    → (0x7f < addr
        → (write_reg t s addr reg value ≡ (bad_arg, s))
          × (read_reg t s addr reg (some cells) ≡ (bad_arg, s, some cells)))
      × (addr ≤ 0x7f
          → ((write_reg t s addr reg value).0 ≢ bad_arg)
            × (cells ≢ [] → (read_reg t s addr reg (some cells)).0 ≢ bad_arg))
      × SameLength (some cells) (read_reg t s addr reg (some cells)).2
unfolding read_reg write_reg
register_accesses t s addr reg value cells v = (
  (λ high. (
    v.write_rejects s addr (some (reg ∷ value ∷ [])) (ground arith),
    v.write_read_rejects s addr (some (reg ∷ [])) (some cells) (ground arith),
  )),
  (λ low. (
    v.write_accepts s addr (some (reg ∷ value ∷ [])) (ground arith),
    λ ne.
        v.write_read_accepts s addr (some (reg ∷ [])) (some cells) (ground arith)
          (nonempty-args addr cells low ne),
  )),
  v.write_read_keeps s addr (some (reg ∷ [])) (some cells),
)
