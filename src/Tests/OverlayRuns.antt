-- ===== src/Tests/OverlayRuns.antt =====
-- Runs of an IRQ object on a region of memory.
use rpi3b.Base.{ℕ, zero, suc, ◌+◌, ◌^◌, refl, false, Option, none, some, List, [], ◌∷◌}
use rpi3b.Interrupt.{Code, Irq, dispatch_trampoline, user}
use rpi3b.Interrupt.Overlay.{Pointers, Placed, load_pointer}
use rpi3b.Interrupt.Overlay.Bounds.{Outside}
use rpi3b.Interrupt.Overlay.Same.{SeenAlike, run_placed-run_events}
use rpi3b.Interrupt.Overlay.Steps.{
  Event, enable, disable, register_handler, install_irq_handler, install_fiq_handler, raise,
  raise_local, run_placed, run_events,
}
use rpi3b.Interrupt.Overlay.Words.{Holds}
use rpi3b.Interrupt.Registers.{irq_pending2}
use rpi3b.Tests.Data.{filled_with}

abbrev address_of : Option Code → ℕ
address_of none = 0
address_of (some dispatch_trampoline) = 1
address_of (some (user f)) = f + 2

abbrev code_at : ℕ → Option Code
code_at zero = none
code_at (suc zero) = some dispatch_trampoline
code_at (suc (suc f)) = some (user f)

abbrev linked : Pointers
linked = record { encode = address_of; decode = code_at }

abbrev blank : Placed
blank = record { words = λ i. 0; vbar = none; active = false }

abbrev separate : Irq
separate = record {
  memory = filled_with 0;
  ivt = record { slots = λ i. none; handlers = λ i. none };
  local = filled_with 0;
  vbar = none;
  active = false;
}

blank-Holds : Holds linked blank separate
unfolding load_pointer
blank-Holds = record {
  memory = λ i lt. refl;
  slots = λ i lt. refl;
  handlers = λ i lt. refl;
  local = λ i lt. refl;
  vbar = refl;
  active = refl;
}

-- The line of the BSC is enabled and raised, and another handler is installed behind the table.
abbrev events : List Event
events =
    install_irq_handler 53 (some (user 7))
    ∷ enable 53
    ∷ register_handler 71 (some (user 3))
    ∷ register_handler 72 (some (user 4))
    ∷ install_fiq_handler 9 (some (user 5))
    ∷ raise irq_pending2 (2 ^ 21)
    ∷ raise_local 24 (2 ^ 8)
    ∷ disable 53
    ∷ []

run_placed-run_events_example :
    SeenAlike linked (run_placed linked (some blank) events) (run_events (some separate) events)
    × Outside blank (run_placed linked (some blank) events)
run_placed-run_events_example =
    run_placed-run_events linked blank separate events blank-Holds refl
      (refl, (tt, (refl, (refl, (refl, (tt, (tt, (tt, tt))))))))
