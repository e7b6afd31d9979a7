-- ===== src/Smp/Deadlock.antt =====
-- When the console lock stays taken for ever, and that nothing else keeps it.
use rpi3b.Base.{
  ℕ, ◌%◌, ◌<◌, ◌≡◌, ◌≢◌, ◌⊎◌, refl, sym, ap, ◌∙◌, ◌/◌, true, ◌==◌, arith, Bool-cases, inl, inr,
}
use rpi3b.Smp.{
  State, Phase, masked, waiting, printing, done, thread, handler, put, attempt, release,
  uart_enable_lock, uart_lock_round, uart_unlock, Step, unmask, interrupt, thread_attempt,
  handler_attempt, thread_release, handler_release, Reach, here, next, start,
}
use rpi3b.Smp.Exclusion.{IsExclusive, taken, attempt-busy, Step-IsExclusive, Reach-IsExclusive}

-- The handler waits for the lock that the thread of its core, which it has interrupted, holds.
abbrev pub Deadlocked : ℕ → State → Type 0
Deadlocked c s = (s.phase (thread c) ≡ printing) × (s.phase (handler c) ≡ waiting)

attempt-Deadlocked :
    (c i : ℕ) (s : State)
    → s.phase i ≡ waiting
    → IsExclusive s
    → Deadlocked c s
    → Deadlocked c (attempt s i)
unfolding taken
attempt-Deadlocked c i s waits v d =
    rw (attempt-busy s i v.locking (λ z. v.free z (thread c) d.0)) (ground arith)

Step-Deadlocked : (c : ℕ) {s t : State} → Step s t → IsExclusive s → Deadlocked c s → Deadlocked c t
Step-Deadlocked c {s} (unmask e h m) v d = ground arith
Step-Deadlocked c {s} (interrupt e h m q) v d = ground arith
Step-Deadlocked c {s} (thread_attempt e h w q) v d = attempt-Deadlocked c (thread e) s w v d
Step-Deadlocked c {s} (handler_attempt e h w) v d = attempt-Deadlocked c (handler e) s w v d
Step-Deadlocked c {s} (thread_release e h w q) v d =
    absurd (ground (arith, v.one (thread e) (thread c)))
Step-Deadlocked c {s} (handler_release e h w) v d =
    absurd (ground (arith, v.one (handler e) (thread c)))

Reach-both :
    (c : ℕ) {s t : State}
    → IsExclusive s
    → Deadlocked c s
    → Reach s t
    → IsExclusive t × Deadlocked c t
Reach-both c v d here = (v, d)
Reach-both c v d (next r st) =
    let (w, e) = Reach-both c v d r in (Step-IsExclusive st w, Step-Deadlocked c st w e)

-- From a state of the four cores in which a handler waits for the lock that the thread of its own
-- core holds, every state that follows is such a state for that core, with the lock taken and no
-- other context between `uart_lock` and `uart_unlock`.
pub Reach-Deadlocked :
    (c : ℕ) {s t : State}
    → IsExclusive s
    → Deadlocked c s
    → Reach s t
    → Deadlocked c t × (t.lock.g_lock ≢ 0) × ((i : ℕ) → t.phase i ≡ printing → i ≡ thread c)
Reach-Deadlocked c v d r =
    let (w, e) = Reach-both c v d r in
    (e, (λ z. w.free z (thread c) e.0), λ i p. w.one i (thread c) p e.0)

-- The state in which a thread has taken the lock and been interrupted.
unfoldable pub interrupted : ℕ → State
interrupted c =
    let unmasked = record start { phase = put start.phase (thread c) waiting } in
    let holding = attempt unmasked (thread c) in
    record holding { phase = put holding.phase (handler c) waiting }

pub Reach-interrupted : (c : ℕ) → c < 4 → Reach start (interrupted c)
unfolding interrupted start attempt uart_lock_round uart_enable_lock
Reach-interrupted c h =
    next
      (next (next here (unmask c h (ground arith)))
        (thread_attempt c h (ground arith) (ground arith)))
      (interrupt c h (ground arith) (ground arith))

pub interrupted-Deadlocked : (c : ℕ) → Deadlocked c (interrupted c)
unfolding interrupted start attempt uart_lock_round uart_enable_lock
interrupted-Deadlocked c = ground arith

-- On each of the four cores, a state in which its handler waits for the lock that its own thread
-- holds is reached from the start: the thread takes the lock, and the timer's interrupt comes
-- before it gives the lock back.
pub Deadlocked-reached : (c : ℕ) → c < 4 → (s : State) × Reach start s × Deadlocked c s
Deadlocked-reached c h = (interrupted c, Reach-interrupted c h, interrupted-Deadlocked c)

release-free : (s : State) (i : ℕ) → s.lock.g_locking ≡ true → (release s i).lock.g_lock ≡ 0
unfolding release uart_unlock
release-free s i locking = ground arith

-- The thread of a core holds the lock.
released-or-waiting :
    (s : State) (c : ℕ) (p : Phase)
    → IsExclusive s
    → c < 4
    → s.phase (thread c) ≡ printing
    → s.phase (handler c) ≡ p
    → ((t : State) × Step s t × (t.lock.g_lock ≡ 0)) ⊎ ((e : ℕ) × Deadlocked e s)
released-or-waiting s c masked v h prints e = absurd (v.unmasked c e)
released-or-waiting s c waiting v h prints e = inr (c, (prints, e))
released-or-waiting s c printing v h prints e =
    absurd (omega (arith, v.one (thread c) (handler c) prints e))
released-or-waiting s c done v h prints e =
    inl (release s (thread c), thread_release c h prints e, release-free s (thread c) v.locking)

-- Nothing else keeps the lock: in a state reached from the start in which it is taken, either a step
-- is possible after which it is free, or the handler of some core waits for the lock that the
-- thread of the same core holds.
pub released-or-Deadlocked :
    {s : State}
    → Reach start s
    → s.lock.g_lock ≢ 0
    → ((t : State) × Step s t × (t.lock.g_lock ≡ 0)) ⊎ ((c : ℕ) × Deadlocked c s)
released-or-Deadlocked {s} r busy =
    let v = Reach-IsExclusive r in
    let (i, prints) = v.held busy in
    elim (Bool-cases (i % 2 == 0)) [
      | inl even ↦
          let e : i ≡ thread (i / 2) = ground arith in
          released-or-waiting s (i / 2) (s.phase (handler (i / 2))) v
            (omega (arith, v.cores i prints)) (ap s.phase (sym e) ∙ prints) refl
      | inr odd ↦
          let e : i ≡ handler (i / 2) = ground arith in
          inl (
            release s (handler (i / 2)),
            handler_release (i / 2) (omega (arith, v.cores i prints)) (ap s.phase (sym e) ∙ prints),
            release-free s (handler (i / 2)) v.locking,
          )
    ]
