-- ===== src/Mapping/Balance.antt =====
-- What the objects hold and what the calls took and gave back agree, in every order of events.
use rpi3b.Base.{ℕ, ◌+◌, ◌≡◌, ◌≢◌, refl, ap, Option, none, some, List, [], ◌∷◌, ◌++◌, arith}
use rpi3b.Mapping.{
  Region, Calls, construct, destroy, swap, move_construct, empty_region, unmap_first, close_last,
}
use rpi3b.Mapping.Life.{
  World, add_made, Step, constructing, moving, assigning, destroying, Reach, here, next, count,
  count_mapping, holds_fd, holds_mapping, fds, mappings,
}

fds-append : (n : ℕ) (xs ys : List Region) → fds n (xs ++ ys) ≡ fds n xs + fds n ys
fds-append n [] ys = omega arith
fds-append n (x ∷ xs) ys = omega (arith, fds-append n xs ys)

mappings-append :
    (at len : ℕ) (xs ys : List Region)
    → mappings at len (xs ++ ys) ≡ mappings at len xs + mappings at len ys
mappings-append at len [] ys = omega arith
mappings-append at len (x ∷ xs) ys = omega (arith, mappings-append at len xs ys)

-- `no` says that no object holds a mapping at address 0, by the count.
record IsBalanced (w : World) : Type 0 where
  fd : (n : ℕ) → count n w.calls.opened ≡ count n w.calls.closed + fds n w.objects
  mapping :
      (at len : ℕ)
      → count_mapping at len w.calls.mapped
        ≡ count_mapping at len w.calls.unmapped + mappings at len w.objects
  no : (len : ℕ) → mappings 0 len w.objects ≡ 0

construct-IsBalanced :
    (w : World) (pg : ℕ) (opened mapping : Option ℕ) (phys len : ℕ)
    → mapping ≢ some 0
    → IsBalanced w
    → IsBalanced (add_made (construct pg opened mapping phys len w.calls) w.objects)
unfolding construct
construct-IsBalanced w pg none mapping phys len ne v = v
construct-IsBalanced w pg (some fd) none phys len ne v = record {
  fd = λ n. omega (arith, v.fd n);
  mapping = v.mapping;
  no = v.no;
}
construct-IsBalanced w pg (some fd) (some at) phys len ne v = record {
  fd = λ n. omega (arith, v.fd n);
  mapping = λ a k. omega (arith, v.mapping a k);
  no = λ k. ground (arith, v.no k);
}

-- Objects in another order, or with objects that hold nothing, are balanced too.
rearranged :
    (w : World) (objects : List Region)
    → ((n : ℕ) → fds n objects ≡ fds n w.objects)
    → ((at len : ℕ) → mappings at len objects ≡ mappings at len w.objects)
    → IsBalanced w
    → IsBalanced (record w { objects = objects })
rearranged w objects same same' v = record {
  fd = λ n. omega (arith, v.fd n, same n);
  mapping = λ at len. omega (arith, v.mapping at len, same' at len);
  no = λ len. omega (arith, v.no len, same' 0 len);
}

-- What the two halves of the destructor add to the calls.
released :
    (fd map : Option ℕ) (len : ℕ) (c : Calls) (n at k : ℕ)
    → holds_mapping 0 len map len ≡ 0
    → let c' = close_last fd (unmap_first map len c) in
      (count n c'.closed ≡ count n c.closed + holds_fd n fd)
      × (count_mapping at k c'.unmapped
          ≡ count_mapping at k c.unmapped + holds_mapping at k map len)
      × (count n c'.opened ≡ count n c.opened)
      × (count_mapping at k c'.mapped ≡ count_mapping at k c.mapped)
released none none len c n at k null = (omega arith, omega arith, refl, refl)
released (some fd) none len c n at k null = (omega arith, omega arith, refl, refl)
released none (some a) len c n at k null = (ground arith, ground arith, ground arith, ground arith)
released (some fd) (some a) len c n at k null =
    (ground arith, ground arith, ground arith, ground arith)

-- One object among others.
fds-split :
    (n : ℕ) (before after : List Region) (o : Region)
    → fds n (before ++ o ∷ after) ≡ fds n before + (holds_fd n o.fd + fds n after)
fds-split n before after o = fds-append n before (o ∷ after)

mappings-split :
    (at len : ℕ) (before after : List Region) (o : Region)
    → mappings at len (before ++ o ∷ after)
      ≡ mappings at len before + (holds_mapping at len o.map o.length + mappings at len after)
mappings-split at len before after o = mappings-append at len before (o ∷ after)

destroy-IsBalanced :
    (w : World) (before after : List Region) (o : Region)
    → w.objects ≡ before ++ o ∷ after
    → IsBalanced w
    → IsBalanced (record { objects = before ++ after; calls = destroy o w.calls })
unfolding destroy
destroy-IsBalanced w before after o e v =
    let null : holds_mapping 0 o.length o.map o.length ≡ 0 = omega (
      arith,
      v.no o.length,
      ap (mappings 0 o.length) e,
      mappings-split 0 o.length before after o,
    ) in
    record {
      fd = λ n. omega (
        arith,
        v.fd n,
        ap (fds n) e,
        fds-split n before after o,
        fds-append n before after,
        (released o.fd o.map o.length w.calls n 0 0 null).0,
        (released o.fd o.map o.length w.calls n 0 0 null).2,
      );
      mapping = λ at len. omega (
        arith,
        v.mapping at len,
        ap (mappings at len) e,
        mappings-split at len before after o,
        mappings-append at len before after,
        (released o.fd o.map o.length w.calls 0 at len null).1,
        (released o.fd o.map o.length w.calls 0 at len null).3,
      );
      no = λ len. omega (
        arith,
        v.no len,
        ap (mappings 0 len) e,
        mappings-split 0 len before after o,
        mappings-append 0 len before after,
      );
    }

Step-IsBalanced : {w u : World} → Step w u → IsBalanced w → IsBalanced u
unfolding move_construct swap
Step-IsBalanced {w} (constructing pg opened mapping phys len ne) v =
    construct-IsBalanced w pg opened mapping phys len ne v
Step-IsBalanced {w} (moving before after o e) v =
    rearranged w (o ∷ (before ++ empty_region ∷ after))
      (λ n.
        omega
          (arith, ap (fds n) e, fds-split n before after o, fds-split n before after empty_region))
      (λ at len. omega (
        arith,
        ap (mappings at len) e,
        mappings-split at len before after o,
        mappings-split at len before after empty_region,
      ))
      v
Step-IsBalanced {w} (assigning before between after a b e) v =
    rearranged w (before ++ b ∷ (between ++ a ∷ after))
      (λ n. omega (
        arith,
        ap (fds n) e,
        fds-split n before (between ++ b ∷ after) a,
        fds-split n between after b,
        fds-split n before (between ++ a ∷ after) b,
        fds-split n between after a,
      ))
      (λ at len. omega (
        arith,
        ap (mappings at len) e,
        mappings-split at len before (between ++ b ∷ after) a,
        mappings-split at len between after b,
        mappings-split at len before (between ++ a ∷ after) b,
        mappings-split at len between after a,
      ))
      v
Step-IsBalanced {w} (destroying before after o e) v = destroy-IsBalanced w before after o e v

abbrev pub no_calls : World
no_calls = record {
  objects = [];
  calls = record { opened = []; closed = []; mapped = []; unmapped = []; requested = [] };
}

no_calls-IsBalanced : IsBalanced no_calls
no_calls-IsBalanced = record { fd = λ n. refl; mapping = λ at len. refl; no = λ len. refl }

Reach-IsBalanced : {w : World} → Reach no_calls w → IsBalanced w
Reach-IsBalanced here = no_calls-IsBalanced
Reach-IsBalanced (next r st) = Step-IsBalanced st (Reach-IsBalanced r)

-- After any constructions, whatever `open` and `mmap` answer, as long as `mmap` gives no address 0,
-- and any moves and destructions of `MMIO` objects: once no object is left, each descriptor has
-- been closed as often as it was opened, and each mapping unmapped, with the length it was made
-- with, as often as it was made.
pub released-all :
    {w : World} (n at len : ℕ)
    → Reach no_calls w
    → w.objects ≡ []
    → (count n w.calls.closed ≡ count n w.calls.opened)
      × (count_mapping at len w.calls.unmapped ≡ count_mapping at len w.calls.mapped)
released-all {w} n at len r e =
    let v = Reach-IsBalanced r in
    (omega (arith, v.fd n, ap (fds n) e), omega (arith, v.mapping at len, ap (mappings at len) e))
