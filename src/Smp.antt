-- ===== src/Smp.antt =====
-- freestanding/smp.cpp and the console lock of freestanding/uart.cpp: four cores, on each of which
-- a thread (`kmain` from its call of `core_timer_start`, or `ksecondary`) and the timer's interrupt
-- handler (`timer_isr`) print under the lock. The scheduling is free: any context that runs may
-- make its next access, and an interrupt may come whenever it is not masked.
pub mod Exclusion
pub mod Deadlock
use rpi3b.Base.{ℕ, zero, suc, ◌+◌, ◌*◌, ◌%◌, ◌<◌, ◌≡◌, ◌≢◌, Bool, true, false, ◌==◌, if◌then◌else◌}

-- `g_lock` and `g_locking`
pub record Lock : Type 0 where
  pub g_lock : ℕ
  pub g_locking : Bool

unfoldable pub uart_enable_lock : Lock → Lock
uart_enable_lock l = record l { g_locking = true }

-- One round of `uart_lock`: the exchange, and whether the function returns.
unfoldable pub uart_lock_round : Lock → Lock × Bool
uart_lock_round l = if l.g_locking then (record l { g_lock = 1 }, l.g_lock == 0) else (l, true)

unfoldable pub uart_unlock : Lock → Lock
uart_unlock l = if l.g_locking then record l { g_lock = 0 } else l

-- Where a context stands: before `irq_unmask` (a thread only), in `uart_lock`, between `uart_lock`
-- and `uart_unlock`, or after it. A handler that is not running is `done`.
pub data Phase : Type 0 where
  masked : Phase
  waiting : Phase
  printing : Phase
  done : Phase

pub record State : Type 0 where
  pub lock : Lock
  -- The phase of each context, by its number.
  pub phase : ℕ → Phase

-- The numbers of the two contexts of a core.
abbrev pub thread : ℕ → ℕ
thread c = 2 * c

abbrev pub handler : ℕ → ℕ
handler c = 2 * c + 1

abbrev pub put : (ℕ → Phase) → ℕ → Phase → ℕ → Phase
put phase i p j = if i == j then p else phase j

-- What a context does next in `uart_lock`.
unfoldable pub attempt : State → ℕ → State
unfolding uart_lock_round
attempt s i =
    let (lock, returned) = uart_lock_round s.lock in
    record { lock = lock; phase = put s.phase i (if returned then printing else waiting) }

unfoldable pub release : State → ℕ → State
unfolding uart_unlock
release s i = record { lock = uart_unlock s.lock; phase = put s.phase i done }

pub data Step (s : State) : State → Type 0 where
  -- `irq_unmask` in `core_timer_start`; the thread then calls `uart_lock`.
  unmask :
      (c : ℕ)
      → c < 4
      → s.phase (thread c) ≡ masked
      → Step s (record s { phase = put s.phase (thread c) waiting })
  -- The timer's interrupt is taken, and its handler calls `uart_lock`.
  interrupt :
      (c : ℕ)
      → c < 4
      → s.phase (thread c) ≢ masked
      → s.phase (handler c) ≡ done
      → Step s (record s { phase = put s.phase (handler c) waiting })
  -- A thread runs only while the handler of its core does not.
  thread_attempt :
      (c : ℕ)
      → c < 4
      → s.phase (thread c) ≡ waiting
      → s.phase (handler c) ≡ done
      → Step s (attempt s (thread c))
  handler_attempt : (c : ℕ) → c < 4 → s.phase (handler c) ≡ waiting → Step s (attempt s (handler c))
  thread_release :
      (c : ℕ)
      → c < 4
      → s.phase (thread c) ≡ printing
      → s.phase (handler c) ≡ done
      → Step s (release s (thread c))
  handler_release :
      (c : ℕ) → c < 4 → s.phase (handler c) ≡ printing → Step s (release s (handler c))

pub data Reach (s : State) : State → Type 0 where
  here : Reach s s
  next : {t u : State} → Reach s t → Step t u → Reach s u

-- After `uart_enable_lock`, with the lock free as it is from the start, before any core unmasks its
-- interrupts.
unfoldable pub start : State
unfolding uart_enable_lock
start = record {
  lock = uart_enable_lock (record { g_lock = 0; g_locking = false });
  phase = λ i. if i % 2 == 0 then masked else done;
}
