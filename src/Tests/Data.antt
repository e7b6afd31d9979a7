-- ===== src/Tests/Data.antt =====
-- The register blocks that the runs start from.
use rpi3b.Base.{ℕ, [], arith}
use rpi3b.Mmio.{Mmio, IsWords}

-- Every register holds the same word.
abbrev pub filled_with : ℕ → Mmio
filled_with v = record { value = λ i. v; stores = [] }

abbrev pub patterned : Mmio
patterned = filled_with 0x5a5a5a5a

pub patterned-IsWords : IsWords patterned
patterned-IsWords i = omega arith
