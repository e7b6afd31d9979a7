-- ===== src/Smp/Exclusion.antt =====
-- At most one context prints at a time.
use rpi3b.Base.{ℕ, ◌<◌, ◌≡◌, ◌≢◌, refl, true, ◌==◌, arith, Bool-cases, inl, inr}
use rpi3b.Smp.{
  State, Phase, masked, waiting, printing, thread, handler, put, attempt, uart_lock_round,
  uart_unlock, release, Step, unmask, interrupt, thread_attempt, handler_attempt, thread_release,
  handler_release, Reach, here, next, start,
}

pub record IsExclusive (s : State) : Type 0 where
  pub locking : s.lock.g_locking ≡ true
  pub one : (i j : ℕ) → s.phase i ≡ printing → s.phase j ≡ printing → i ≡ j
  pub free : s.lock.g_lock ≡ 0 → (i : ℕ) → s.phase i ≢ printing
  pub held : s.lock.g_lock ≢ 0 → (i : ℕ) × (s.phase i ≡ printing)
  pub cores : (i : ℕ) → s.phase i ≡ printing → i < 8
  pub unmasked : (c : ℕ) → s.phase (handler c) ≢ masked

-- A context that neither printed nor prints now.
put-IsExclusive :
    (s : State) (i : ℕ) (p : Phase)
    → s.phase i ≢ printing
    → p ≢ printing
    → p ≢ masked
    → IsExclusive s
    → IsExclusive (record s { phase = put s.phase i p })
put-IsExclusive s i p was is stays v = record {
  locking = v.locking;
  one = λ j k hj hk. ground (arith, v.one j k);
  free = λ h j. ground (arith, v.free h j);
  held = λ h. let (j, hj) = v.held h in (j, ground arith);
  cores = λ j h. ground (arith, v.cores j);
  unmasked = λ c h. ground (arith, v.unmasked c);
}

-- The state after an exchange, with the context in a phase.
unfoldable pub taken : State → ℕ → Phase → State
taken s i p = record { lock = record s.lock { g_lock = 1 }; phase = put s.phase i p }

pub attempt-free :
    (s : State) (i : ℕ)
    → s.lock.g_locking ≡ true
    → s.lock.g_lock ≡ 0
    → attempt s i ≡ taken s i printing
unfolding attempt uart_lock_round taken
attempt-free s i locking free = ground arith

pub attempt-busy :
    (s : State) (i : ℕ)
    → s.lock.g_locking ≡ true
    → s.lock.g_lock ≢ 0
    → attempt s i ≡ taken s i waiting
unfolding attempt uart_lock_round taken
attempt-busy s i locking busy = ground arith

free-IsExclusive :
    (s : State) (i : ℕ)
    → i < 8
    → s.lock.g_lock ≡ 0
    → IsExclusive s
    → IsExclusive (taken s i printing)
unfolding taken
free-IsExclusive s i small free v = record {
  locking = v.locking;
  one = λ j k hj hk. ground (arith, v.free free j, v.free free k);
  free = λ h j. absurd (omega arith);
  held = λ h. (i, ground arith);
  cores = λ j h. ground (arith, v.cores j);
  unmasked = λ c h. ground (arith, v.unmasked c);
}

busy-IsExclusive :
    (s : State) (i : ℕ)
    → s.phase i ≡ waiting
    → s.lock.g_lock ≢ 0
    → IsExclusive s
    → IsExclusive (taken s i waiting)
unfolding taken
busy-IsExclusive s i waits busy v = record {
  locking = v.locking;
  one = λ j k hj hk. ground (arith, v.one j k);
  free = λ h j. absurd (omega arith);
  held = λ h. let (j, hj) = v.held busy in (j, ground arith);
  cores = λ j h. ground (arith, v.cores j);
  unmasked = λ c h. ground (arith, v.unmasked c);
}

attempt-IsExclusive :
    (s : State) (i : ℕ) → i < 8 → s.phase i ≡ waiting → IsExclusive s → IsExclusive (attempt s i)
attempt-IsExclusive s i small waits v = elim (Bool-cases (s.lock.g_lock == 0)) [
  | inl free ↦
      rw (attempt-free s i v.locking (ground arith)) (free-IsExclusive s i small (ground arith) v)
  | inr busy ↦
      rw (attempt-busy s i v.locking (ground arith)) (busy-IsExclusive s i waits (ground arith) v)
]

release-IsExclusive :
    (s : State) (i : ℕ) → s.phase i ≡ printing → IsExclusive s → IsExclusive (release s i)
unfolding release uart_unlock
release-IsExclusive s i prints v = record {
  locking = ground (arith, v.locking);
  one = λ j k hj hk. ground (arith, v.one j k);
  free = λ h j hj. ground (arith, v.one i j);
  held = λ h. absurd (ground (arith, v.locking));
  cores = λ j h. ground (arith, v.cores j);
  unmasked = λ c h. ground (arith, v.unmasked c);
}

pub Step-IsExclusive : {s t : State} → Step s t → IsExclusive s → IsExclusive t
Step-IsExclusive {s} (unmask c h m) v =
    put-IsExclusive s (thread c) waiting (ground arith) (ground arith) (ground arith) v
Step-IsExclusive {s} (interrupt c h m d) v =
    put-IsExclusive s (handler c) waiting (ground arith) (ground arith) (ground arith) v
Step-IsExclusive {s} (thread_attempt c h w d) v = attempt-IsExclusive s (thread c) (omega arith) w v
Step-IsExclusive {s} (handler_attempt c h w) v = attempt-IsExclusive s (handler c) (omega arith) w v
Step-IsExclusive {s} (thread_release c h w d) v = release-IsExclusive s (thread c) w v
Step-IsExclusive {s} (handler_release c h w) v = release-IsExclusive s (handler c) w v

start-IsExclusive : IsExclusive start
unfolding start
start-IsExclusive = record {
  locking = refl;
  one = λ i j h k. ground arith;
  free = λ h i. ground arith;
  held = λ h. absurd (ground arith);
  cores = λ j h. ground arith;
  unmasked = λ c h. ground arith;
}

-- In every state that the four cores reach from the start, however their steps and the interrupts
-- are interleaved: the lock is in use, no two contexts are between `uart_lock` and `uart_unlock`,
-- none is while the lock is free, and one is while it is taken, a context of one of the four cores;
-- and no handler is in the phase before `irq_unmask`.
pub Reach-IsExclusive : {t : State} → Reach start t → IsExclusive t
Reach-IsExclusive here = start-IsExclusive
Reach-IsExclusive (next r st) = Step-IsExclusive st (Reach-IsExclusive r)
