-- ===== src/Mapping/Life.antt =====
-- The life of `MMIO` objects: constructions, moves and destructions in any order.
use rpi3b.Base.{
  ℕ, ◌+◌, ◌≡◌, ◌≢◌, ◌&&◌, ◌==◌, if◌then◌else◌, Option, none, some, List, [], ◌∷◌, ◌++◌,
}
use rpi3b.Mapping.{
  Region, Calls, Made, made, open_failed, mmap_failed, construct, destroy, swap, move_construct,
}

-- The objects that exist, and the calls made so far.
pub record World : Type 0 where
  pub objects : List Region
  pub calls : Calls

abbrev pub add_made : Made × Calls → List Region → World
add_made (made r, c) objects = record { objects = r ∷ objects; calls = c }
add_made (open_failed, c) objects = record { objects = objects; calls = c }
add_made (mmap_failed, c) objects = record { objects = objects; calls = c }

pub data Step (w : World) : World → Type 0 where
  -- The constructor, whatever `open` and `mmap` answer; `mmap` gives no mapping at address 0.
  constructing :
      (pg : ℕ) (opened mapping : Option ℕ) (phys len : ℕ)
      → mapping ≢ some 0
      → Step w (add_made (construct pg opened mapping phys len w.calls) w.objects)
  -- The move constructor, from any object.
  moving :
      (before after : List Region) (o : Region)
      → w.objects ≡ before ++ o ∷ after
      → Step w
          (record w { objects = (move_construct o).0 ∷ (before ++ (move_construct o).1 ∷ after) })
  -- The move assignment, between any two objects, in either order.
  assigning :
      (before between after : List Region) (a b : Region)
      → w.objects ≡ before ++ a ∷ (between ++ b ∷ after)
      → Step w (record w { objects = before ++ (swap a b).0 ∷ (between ++ (swap a b).1 ∷ after) })
  destroying :
      (before after : List Region) (o : Region)
      → w.objects ≡ before ++ o ∷ after
      → Step w (record { objects = before ++ after; calls = destroy o w.calls })

pub data Reach (w : World) : World → Type 0 where
  here : Reach w w
  next : {u v : World} → Reach w u → Step u v → Reach w v

-- How often a descriptor stands in a list, and a mapping.
abbrev pub count : ℕ → List ℕ → ℕ
count n [] = 0
count n (m ∷ l) = (if m == n then 1 else 0) + count n l

abbrev pub count_mapping : ℕ → ℕ → List (ℕ × ℕ) → ℕ
count_mapping at len [] = 0
count_mapping at len ((b, k) ∷ l) = (if b == at && k == len then 1 else 0) + count_mapping at len l

-- How many objects hold a descriptor, and a mapping.
abbrev pub holds_fd : ℕ → Option ℕ → ℕ
holds_fd n none = 0
holds_fd n (some m) = if m == n then 1 else 0

abbrev pub holds_mapping : ℕ → ℕ → Option ℕ → ℕ → ℕ
holds_mapping at len none k = 0
holds_mapping at len (some b) k = if b == at && k == len then 1 else 0

abbrev pub fds : ℕ → List Region → ℕ
fds n [] = 0
fds n (r ∷ l) = holds_fd n r.fd + fds n l

abbrev pub mappings : ℕ → ℕ → List Region → ℕ
mappings at len [] = 0
mappings at len (r ∷ l) = holds_mapping at len r.map r.length + mappings at len l
