-- ===== src/Tests/LibcRuns.antt =====
-- Runs of the memory functions.
use rpi3b.Base.{◌+◌, ◌-◌, ◌%◌, ◌≡◌, if◌then◌else◌}
use rpi3b.Libc.{Memory, memmove}
use rpi3b.Libc.Copy.{within, memmove_lem}

abbrev counting : Memory
counting a = a % 256

memmove_lem_example :
    ((memmove counting 12 10 4).0 13
      ≡ (if within 12 4 13 then counting (10 + (13 - 12)) else counting 13))
    × ((memmove counting 12 10 4).1 ≡ 12)
memmove_lem_example = memmove_lem counting 12 10 4 13
