-- ===== src/Libc.antt =====
-- The memory functions of freestanding/libc_min.cpp. Memory is a byte for each address; the
-- functions that return their first argument give it beside the memory.
pub mod Copy
pub mod Compare
use rpi3b.Base.{ℕ, zero, suc, ◌+◌, ◌-◌, ◌%◌, ltb, leb, ◌==◌, if◌then◌else◌}
use rpi3b.Base.Int.{ℤ, pos, sub_ℕ}
use rpi3b.Mmio.{update}

abbrev pub Memory : Type 0
Memory = ℕ → ℕ

-- `while(n--) *p++ = static_cast<unsigned char>(c);`
unfoldable pub fill : Memory → ℕ → ℕ → ℕ → Memory
fill m p c zero = m
fill m p c (suc n) = fill (update m p (c % 256)) (p + 1) c n

unfoldable pub memset : Memory → ℕ → ℕ → ℕ → Memory × ℕ
unfolding fill
memset m d c n = (fill m d c n, d)

-- `while(n--) *dp++ = *sp++;`
unfoldable pub copy_up : Memory → ℕ → ℕ → ℕ → Memory
copy_up m dp sp zero = m
copy_up m dp sp (suc n) = copy_up (update m dp (m sp)) (dp + 1) (sp + 1) n

-- `while(n--) *--dp = *--sp;`
unfoldable pub copy_down : Memory → ℕ → ℕ → ℕ → Memory
copy_down m dp sp zero = m
copy_down m dp sp (suc n) = copy_down (update m (dp - 1) (m (sp - 1))) (dp - 1) (sp - 1) n

unfoldable pub memcpy : Memory → ℕ → ℕ → ℕ → Memory × ℕ
unfolding copy_up
memcpy m d s n = (copy_up m d s n, d)

unfoldable pub memmove : Memory → ℕ → ℕ → ℕ → Memory × ℕ
unfolding copy_up copy_down
memmove m d s n = if ltb d s then (copy_up m d s n, d) else (copy_down m (d + n) (s + n) n, d)

unfoldable pub memcmp : Memory → ℕ → ℕ → ℕ → ℤ
memcmp m a b zero = pos 0
memcmp m a b (suc n) = if m a == m b then memcmp m (a + 1) (b + 1) n else sub_ℕ (m a) (m b)
