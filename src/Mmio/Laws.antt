-- ===== src/Mmio/Laws.antt =====
-- Loads after the stores of a register block.
use rpi3b.Base.{ℕ, ◌^◌, ◌<◌, ◌≡◌, refl, ◌==◌, if◌then◌else◌, bit_and, bit_or, arith}
use rpi3b.Word.Field.{bit_and-lt, bit_or-lt}
use rpi3b.Mmio.{Mmio, load, store, or_assign, and_assign, IsWords}

pub load-store : (m : Mmio) (i v j : ℕ) → load (store m i v) j ≡ (if i == j then v else load m j)
unfolding load store
load-store m i v j = refl

pub load-or_assign :
    (m : Mmio) (i v j : ℕ)
    → load (or_assign m i v) j ≡ (if i == j then bit_or (load m i) v else load m j)
unfolding load or_assign
load-or_assign m i v j = refl

pub load-and_assign :
    (m : Mmio) (i v j : ℕ)
    → load (and_assign m i v) j ≡ (if i == j then bit_and (load m i) v else load m j)
unfolding load and_assign
load-and_assign m i v j = refl

pub store-IsWords : (m : Mmio) (i v : ℕ) → v < 2 ^ 32 → IsWords m → IsWords (store m i v)
unfolding store
store-IsWords m i v h w j = ground (arith, w j)

pub or_assign-IsWords : (m : Mmio) (i v : ℕ) → v < 2 ^ 32 → IsWords m → IsWords (or_assign m i v)
unfolding or_assign
or_assign-IsWords m i v h w j = ground (arith, w j, bit_or-lt 32 (m.value i) v (w i) h)

pub and_assign-IsWords : (m : Mmio) (i v : ℕ) → IsWords m → IsWords (and_assign m i v)
unfolding and_assign
and_assign-IsWords m i v w j = ground (arith, w j, bit_and-lt 32 (m.value i) v (w i))
