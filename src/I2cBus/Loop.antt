-- ===== src/I2cBus/Loop.antt =====
-- Reasoning about a polling loop: an invariant, and what its results say of the last status.
use rpi3b.Base.{ℕ, zero, suc, ◌≡◌, refl, Bool, if◌then◌else◌, true, false, arith}
use rpi3b.Word.Single.{is_set}
use rpi3b.Mmio.{Mmio}
use rpi3b.I2cBus.{
  I2cResult, classify, ok, bad_arg, timeout, nack, clock_timeout, Slave, Pass, stop, again, Ended,
  poll_loop, s_done, s_err, s_clkt,
}

-- What a result says of the status word that was read last.
abbrev pub Explains : I2cResult → ℕ → Type 0
Explains ok s = (is_set s s_done ≡ true) × (is_set s s_err ≡ false) × (is_set s s_clkt ≡ false)
Explains nack s = is_set s s_err ≡ true
Explains clock_timeout s = (is_set s s_err ≡ false) × (is_set s s_clkt ≡ true)
Explains timeout s = Unit
Explains bad_arg s = ⊥

-- A pass keeps the invariant `P`, or ends with `Q`.
abbrev pub Keeps :
    {A : Type 0}
    → (Mmio → A → Type 0)
    → (I2cResult → Mmio → A → Type 0)
    → Mmio
    → A
    → Pass A
    → Type 0
Keeps P Q m a (stop r) = Q r m a
Keeps P Q m a (again m' a') = P m' a'

pub Keeps-if :
    {A : Type 0} (P : Mmio → A → Type 0) (Q : I2cResult → Mmio → A → Type 0) (m : Mmio) (a : A)
    (b : Bool) (p q : Pass A)
    → (b ≡ true → Keeps P Q m a p)
    → (b ≡ false → Keeps P Q m a q)
    → Keeps P Q m a (if b then p else q)
Keeps-if P Q m a true p q h k = h refl
Keeps-if P Q m a false p q h k = k refl

pub classify_calm : (s : ℕ) → is_set s s_err ≡ false → is_set s s_clkt ≡ false → classify s ≡ ok
unfolding classify
classify_calm s e c = ground arith

module _ {W A : Type 0} (pass : Mmio → A → Pass A) (hw : Slave W) (P : Mmio → A → Type 0)
    (Q : I2cResult → Mmio → A → Type 0)
    (keep : (m : Mmio) (v : ℕ → ℕ) (a : A)
      → P m a
      → Keeps P Q (record m { value = v }) a (pass (record m { value = v }) a))
    (expire : (m : Mmio) (a : A) → P m a → Q timeout m a) where
  step_inv :
      (spins : ℕ) (w' : W) (m' : Mmio) (a : A) (p : Pass A)
      → Keeps P Q m' a p
      → ((m'' : Mmio) (a' : A)
          → P m'' a'
          → let e = poll_loop pass hw spins m'' w' a' in Q e.result e.regs e.left)
      → let e : Ended W A = elim p [
        | stop r ↦ record { result = r; regs = m'; world = w'; left = a }
        | again m'' a' ↦ poll_loop pass hw spins m'' w' a'
      ] in
        Q e.result e.regs e.left
  step_inv spins w' m' a (stop r) k ih = k
  step_inv spins w' m' a (again m'' a') k ih = ih m'' a' k

  pub poll_loop_inv :
      (spins : ℕ) (m : Mmio) (w : W) (a : A)
      → P m a
      → let e = poll_loop pass hw spins m w a in Q e.result e.regs e.left
  unfolding poll_loop
  poll_loop_inv zero m w a h = expire m a h
  poll_loop_inv (suc spins) m w a h =
      let (w', v) = hw w m in
      let m' = record m { value = v } in
      step_inv spins w' m' a (pass m' a) (keep m v a h)
        (λ m'' a' h'. poll_loop_inv spins m'' w' a' h')
