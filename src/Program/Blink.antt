-- ===== src/Program/Blink.antt =====
-- What the demonstration does to the pins, and that it leaves nothing open.
use rpi3b.Base.{
  ℕ, ◌≤◌, ◌≡◌, refl, ap, ◌∙◌, Bool, true, false, Option, none, some, ◌==◌, if◌then◌else◌, arith,
}
use rpi3b.Gpio.{read, output, gpsetn, set_pin, gpio_max}
use rpi3b.Gpio.Function.{read-write, output-input-eq-write}
use rpi3b.Gpio.Registers.{output_mode}
use rpi3b.Mapping.{Calls, construct, destroy}
use rpi3b.Mapping.Life.{count}
use rpi3b.Mmio.{Mmio, load, store, or_assign}
use rpi3b.Program.{led, blink, main}

read-gpsetn : (m : Mmio) (g : ℕ) → g ≤ gpio_max → read (gpsetn m led) g ≡ read m g
unfolding read gpsetn set_pin or_assign store load
read-gpsetn m g h = ground arith

-- Without `--blink`, `main` changes no pin. With it, when `open` and `mmap` succeed, it returns 0, pin
-- 17 has the output function and every other pin keeps its own; when one of them fails it returns 1
-- and no register changes.
pub main-pins :
    (base pg fd at g : ℕ) (opened mapping : Option ℕ) (c : Calls) (m : Mmio)
    → g ≤ gpio_max
    → ((main true base pg (some fd) (some at) c m).returned ≡ 0)
      × (read (main true base pg (some fd) (some at) c m).gpio g
          ≡ (if 17 == g then 1 else read m g))
      × ((main true base pg (some fd) none c m).returned ≡ 1)
      × ((main true base pg none mapping c m).returned ≡ 1)
      × ((main true base pg (some fd) none c m).gpio ≡ m)
      × ((main true base pg none mapping c m).gpio ≡ m)
      × ((main false base pg opened mapping c m).gpio ≡ m)
unfolding main blink construct
main-pins base pg fd at g opened mapping c m h = (
  refl,
  read-gpsetn (output m led) g h
      ∙ ap (λ (t : Mmio). read t g) (output-input-eq-write m led 0).0
      ∙ (read-write m led g 0 output_mode (omega arith) h).0,
  refl,
  refl,
  refl,
  refl,
  refl,
)

-- On every path, each descriptor that `main` opens it closes.
pub main-closes :
    (option : Bool) (base pg n : ℕ) (opened mapping : Option ℕ) (c : Calls) (m : Mmio)
    → count n c.closed ≡ count n c.opened
    → let calls = (main option base pg opened mapping c m).calls in
      count n calls.closed ≡ count n calls.opened
unfolding main blink construct destroy
main-closes false base pg n opened mapping c m h = h
main-closes true base pg n none mapping c m h = h
main-closes true base pg n (some fd) none c m h = omega arith
main-closes true base pg n (some fd) (some at) c m h = ground arith
