-- ===== src/I2cIrq/Notified.antt =====
-- The completion callback.
use rpi3b.Base.{ℕ, true, false, ◌≡◌, refl, ap, ◌∙◌, Option, none}
use rpi3b.I2cBus.{I2cResult, Slave}
use rpi3b.I2cIrq.{Controller, finalize, isr_pass, sampled, interrupts, notify}
use rpi3b.I2cIrq.Isr.{after, pushed, popped, isr_pass-either, interrupts-keeps}

-- Either the transfer is as finished as it was, and the callback was not called and is still held,
-- or the transfer is finished, and the callback was called once, with some result and with the
-- user data that it was given with, and is held no more.
pub data Notified (c c' : Controller) : Type 0 where
  waiting :
      c'.xfer.cb ≡ c.xfer.cb
      → c'.xfer.user_data ≡ c.xfer.user_data
      → c'.calls ≡ c.calls
      → c'.xfer.finished ≡ c.xfer.finished
      → Notified c c'
  notified :
      (r : I2cResult)
      → c'.xfer.cb ≡ none
      → c'.xfer.finished ≡ true
      → c'.xfer.active ≡ false
      → c'.calls ≡ notify c.xfer.cb r c.xfer.user_data c.calls
      → Notified c c'

finalize-Notified : (c₀ c : Controller) (r : I2cResult) → Notified c₀ c → Notified c₀ (finalize c r)
unfolding finalize
finalize-Notified c₀ c r (waiting e u k d) = notified r refl refl refl cc
finalize-Notified c₀ c r (notified r' e d a k) =
    notified r' refl refl refl (ap (λ (cb : Option ℕ). notify cb r c.xfer.user_data c.calls) e ∙ k)

-- What `Notified` reads of a state.
abbrev Same : Controller → Controller → Type 0
Same c c' =
    (c'.xfer.cb ≡ c.xfer.cb)
    × (c'.xfer.user_data ≡ c.xfer.user_data)
    × (c'.calls ≡ c.calls)
    × (c'.xfer.finished ≡ c.xfer.finished)
    × (c'.xfer.active ≡ c.xfer.active)

Same-Notified : (c₀ c c' : Controller) → Same c c' → Notified c₀ c → Notified c₀ c'
Same-Notified c₀ c c' s (waiting e u k d) = waiting (s.0 ∙ e) (s.1 ∙ u) (s.2 ∙ k) (s.3 ∙ d)
Same-Notified c₀ c c' s (notified r e d a k) = notified r (s.0 ∙ e) (s.3 ∙ d) (s.4 ∙ a) (s.2 ∙ k)

pass-Notified : (c₀ c : Controller) → Notified c₀ c → Notified c₀ (after (isr_pass c))
pass-Notified c₀ c h =
    isr_pass-either (λ t. Notified c₀ (after t)) c (finalize-Notified c₀ c _ h)
      (finalize-Notified c₀ c _ h) (finalize-Notified c₀ c _ h) h
      (λ b bs r e. Same-Notified c₀ c (pushed c b bs) (refl, refl, refl, refl, refl) h)
      (λ x xs r e. Same-Notified c₀ c (popped c xs) (refl, refl, refl, refl, refl) h)

Same-sampled : (c : Controller) (v : ℕ → ℕ) → Same c (sampled c v)
Same-sampled c v = (refl, refl, refl, refl, refl)

pub interrupts-Notified_from :
    {W : Type 0} (hw : Slave W) (n : ℕ) (c₀ c : Controller) (w : W)
    → Notified c₀ c
    → Notified c₀ (interrupts hw n c w).0
interrupts-Notified_from hw n c₀ c w h =
    interrupts-keeps hw (Notified c₀)
      (λ c' w' k.
        let v = (hw w' c'.i2c).1 in
        pass-Notified c₀ (sampled c' v) (Same-Notified c₀ c' (sampled c' v) (Same-sampled c' v) k))
      n c w h

-- Whatever the hardware does, and however often the interrupt arrives: either no callback is called
-- and the transfer keeps its own, and whether it is finished; or the transfer is finished and not
-- active, and its callback was called once, with its user data, and is dropped.
pub interrupts-Notified :
    {W : Type 0} (hw : Slave W) (n : ℕ) (c : Controller) (w : W)
    → Notified c (interrupts hw n c w).0
interrupts-Notified hw n c w = interrupts-Notified_from hw n c c w (waiting refl refl refl refl)
