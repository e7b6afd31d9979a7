-- ===== src/I2cIrq/Interleaved/Ends.antt =====
-- How a call of src/src/i2c/i2c_irq.cpp ends when interrupts come between its statements.
use mathlib.Core.Path.{subst}
use rpi3b.Base.{
  ℕ, zero, suc, ◌≡◌, refl, sym, ap, ◌∙◌, Bool, true, false, Option, none, List, [], ◌∷◌, Bool-cases,
  length, inl, inr,
}
use rpi3b.Mmio.{Mmio}
use rpi3b.Mmio.Fields.{get_field}
use rpi3b.I2c.Registers.{clear, intd, intt, intr, done, err, clkt_to, Status}
use rpi3b.I2c.{clear_fifo, clr_status, slave_address, data_length, get_control}
use rpi3b.I2c.Fields.{get_control-set_control}
use rpi3b.I2cBus.{I2cResult, timeout, Slave}
use rpi3b.I2cIrq.{Controller, Line, interrupts, start, launch}
use rpi3b.I2cIrq.Notified.{Notified, waiting, notified, interrupts-Notified}
use rpi3b.I2cIrq.Interleaved.{
  is_masked, Statement, setup_statements, kick_statements, abort_statements, meanwhile, statements,
  interleaved_start, interleaved_wait, interleaved_call,
}

module _ (m : Mmio) where
  clear_fifo-is_masked : is_masked (clear_fifo m) ≡ is_masked m
  unfolding is_masked clear_fifo
  clear_fifo-is_masked =
      rw
        (
          (get_control-set_control m clear intd 1 0 (λ e. cc) (λ e. cc)).0,
          (get_control-set_control m clear intt 1 0 (λ e. cc) (λ e. cc)).0,
          (get_control-set_control m clear intr 1 0 (λ e. cc) (λ e. cc)).0,
        )
        refl

  clr_status-is_masked : (f : Status) → is_masked (clr_status m f) ≡ is_masked m
  unfolding is_masked get_control get_field clr_status
  clr_status-is_masked f = refl

  slave_address-is_masked : (v : ℕ) → is_masked (slave_address m v) ≡ is_masked m
  unfolding is_masked get_control get_field slave_address
  slave_address-is_masked v = refl

  data_length-is_masked : (v : ℕ) → is_masked (data_length m v) ≡ is_masked m
  unfolding is_masked get_control get_field data_length
  data_length-is_masked v = refl

-- The statements with no interrupt between them.
abbrev pub run_all : List Statement → Controller → Controller
run_all [] c = c
run_all (f ∷ fs) c = run_all fs (f c)

abbrev IsMasked : Controller → Type 0
IsMasked c = is_masked c.i2c ≡ true

abbrev StayMasked : List Statement → Type 0
StayMasked [] = Unit {0}
StayMasked (f ∷ fs) = ((c : Controller) → IsMasked c → IsMasked (f c)) × StayMasked fs

module _ {W : Type 0} (hw : Slave W) (line : Line W) where
  meanwhile-masked : (c : Controller) (w : W) → IsMasked c → (meanwhile hw line c w).0 ≡ c
  unfolding meanwhile
  meanwhile-masked c w e = rw e refl

  statements-masked :
      (fs : List Statement) (c : Controller) (w : W)
      → StayMasked fs
      → IsMasked c
      → (statements hw line fs c w).0 ≡ run_all fs c
  unfolding statements
  statements-masked [] c w stay e = refl
  statements-masked (f ∷ fs) c w stay e =
      let (c', w') = meanwhile hw line c w in
      let same : c' ≡ c = meanwhile-masked c w e in
      statements-masked fs (f c') w' stay.1
        (stay.0 c' (ap (λ (d : Controller). is_masked d.i2c) same ∙ e))
      ∙ ap (λ (d : Controller). run_all fs (f d)) same

  setup-masked :
      (addr count : ℕ) (tx cells : List ℕ) (reading : Bool) (cb : Option ℕ) (user : ℕ)
      → StayMasked (setup_statements addr count tx cells reading cb user)
  setup-masked addr count tx cells reading cb user = (
    (λ c e. e),
    (
      (λ c e. e),
      (
        (λ c e. e),
        (
          (λ c e. e),
          (
            (λ c e. e),
            (
              (λ c e. e),
              (
                (λ c e. clear_fifo-is_masked c.i2c ∙ e),
                (
                  (λ c e. clr_status-is_masked c.i2c done ∙ e),
                  (
                    (λ c e. clr_status-is_masked c.i2c err ∙ e),
                    (
                      (λ c e. clr_status-is_masked c.i2c clkt_to ∙ e),
                      (
                        (λ c e. slave_address-is_masked c.i2c addr ∙ e),
                        ((λ c e. data_length-is_masked c.i2c count ∙ e), tt),
                      ),
                    ),
                  ),
                ),
              ),
            ),
          ),
        ),
      ),
    ),
  )

-- With no interrupt between them, the statements of `start` are the atomic `start`.
run_all-start :
    (c : Controller) (addr : ℕ) (tx cells : List ℕ) (cb : Option ℕ) (user : ℕ)
    → (run_all
          (kick_statements false)
          (run_all (setup_statements addr (length tx) tx cells false cb user) c)
        ≡ start c addr tx cells false cb user)
      × (run_all
            (kick_statements true)
            (run_all (setup_statements addr (length cells) tx cells true cb user) c)
          ≡ start c addr tx cells true cb user)
unfolding start launch
run_all-start c addr tx cells cb user = (refl, refl)

-- The transfer has ended with its result, or it was given up.
pub data Ended (P : Controller → Type 0) (r : I2cResult) (c : Controller) : Type 0 where
  in_time : P c → c.xfer.finished ≡ true → r ≡ c.xfer.result → Ended P r c
  given_up : P c → c.xfer.active ≡ false → r ≡ timeout → Ended P r c

Notified-finished :
    (c c' : Controller) → Notified c c' → c.xfer.finished ≡ true → c'.xfer.finished ≡ true
Notified-finished c c' (waiting cb u k d) e = d ∙ e
Notified-finished c c' (notified r cb f a k) e = f

-- What a predicate has to be kept by.
pub record IsStable {W : Type 0} (hw : Slave W) (P : Controller → Type 0) : Type 0 where
  pub interrupted : (n : ℕ) (c : Controller) (w : W) → P c → P (interrupts hw n c w).0
  pub stored : (c : Controller) (m : Mmio) → P c → P (record c { i2c = m })
  pub stopped : (c : Controller) → P c → P (record c { xfer = record c.xfer { active = false } })

module _ {W : Type 0} (hw : Slave W) (line : Line W) (P : Controller → Type 0)
    (keep : (n : ℕ) (c : Controller) (w : W) → P c → P (interrupts hw n c w).0) where
  meanwhile-keeps : (c : Controller) (w : W) → P c → P (meanwhile hw line c w).0
  unfolding meanwhile
  meanwhile-keeps c w h = elim (Bool-cases (is_masked c.i2c)) [
    | inl quiet ↦ rw quiet h
    | inr open_ ↦ rw open_ (keep (line w).1 c (line w).0 h)
  ]

  abbrev Keep : List Statement → Type 0
  Keep [] = Unit {0}
  Keep (f ∷ fs) = ((c : Controller) → P c → P (f c)) × Keep fs

  statements-keeps :
      (fs : List Statement) (c : Controller) (w : W)
      → Keep fs
      → P c
      → P (statements hw line fs c w).0
  unfolding statements
  statements-keeps [] c w k h = h
  statements-keeps (f ∷ fs) c w k h =
      let (c', w') = meanwhile hw line c w in
      statements-keeps fs (f c') w' k.1 (k.0 c' (meanwhile-keeps c w h))

module _ {W : Type 0} (hw : Slave W) (line : Line W) (P : Controller → Type 0)
    (stable : IsStable hw P) where
  kick-keeps :
      (reading : Bool) (c : Controller) (w : W)
      → P c
      → P (statements hw line (kick_statements reading) c w).0
  kick-keeps true c w h =
      statements-keeps hw line P stable.interrupted (kick_statements true) c w
        (
          (λ c' h'. stable.stored c' _ h'),
          ((λ c' h'. stable.stored c' _ h'), ((λ c' h'. stable.stored c' _ h'), tt)),
        )
        h
  kick-keeps false c w h =
      statements-keeps hw line P stable.interrupted (kick_statements false) c w
        (
          (λ c' h'. stable.stored c' _ h'),
          ((λ c' h'. stable.stored c' _ h'), ((λ c' h'. stable.stored c' _ h'), tt)),
        )
        h

  abort-keeps : (c : Controller) (w : W) → P c → P (statements hw line abort_statements c w).0
  abort-keeps c w h =
      let s = λ (c' : Controller) (m : Mmio) (h' : P c'). stable.stored c' m h' in
      statements-keeps hw line P stable.interrupted abort_statements c w
        (
          (λ c' h'. s c' _ h'),
          (
            (λ c' h'. s c' _ h'),
            (
              (λ c' h'. s c' _ h'),
              (
                (λ c' h'. s c' _ h'),
                (
                  (λ c' h'. s c' _ h'),
                  (
                    (λ c' h'. s c' _ h'),
                    ((λ c' h'. s c' _ h'), ((λ c' h'. stable.stopped c' h'), tt)),
                  ),
                ),
              ),
            ),
          ),
        )
        h

  abort-stops :
      (c : Controller) (w : W) → (statements hw line abort_statements c w).0.xfer.active ≡ false
  unfolding statements
  abort-stops c w = refl

  meanwhile-finished :
      (c : Controller) (w : W)
      → c.xfer.finished ≡ true
      → (meanwhile hw line c w).0.xfer.finished ≡ true
  meanwhile-finished c w e =
      meanwhile-keeps hw line (λ d. d.xfer.finished ≡ true)
        (λ n d w' f. Notified-finished d (interrupts hw n d w').0 (interrupts-Notified hw n d w') f)
        c w e

  interleaved_wait-Ended :
      (waits : ℕ) (c : Controller) (w : W)
      → P c
      → let e = interleaved_wait hw line waits c w in Ended P e.0 e.1
  unfolding interleaved_wait
  interleaved_wait-Ended zero c w h = given_up (abort-keeps c w h) (abort-stops c w) refl
  interleaved_wait-Ended (suc waits) c w h =
      let (c₁, w₁) = meanwhile hw line c w in
      let h₁ : P c₁ = meanwhile-keeps hw line P stable.interrupted c w h in
      elim (Bool-cases (c₁.xfer.finished)) [
        | inl over ↦ rw over (
            in_time (meanwhile-keeps hw line P stable.interrupted c₁ w₁ h₁)
              (meanwhile-finished c₁ w₁ over) refl)
        | inr going ↦ rw going (interleaved_wait-Ended waits c₁ w₁ h₁)
      ]

  -- A call with no interrupt possible at its start ends, with a predicate that its setup establishes
  -- kept up to the end.
  pub interleaved_call-Ended :
      (c : Controller) (w : W) (addr count : ℕ) (tx cells : List ℕ) (reading : Bool)
      → is_masked c.i2c ≡ true
      → P (run_all (setup_statements addr count tx cells reading none 0) c)
      → let e = interleaved_call hw line c w addr count tx cells reading in Ended P e.0 e.1
  unfolding interleaved_call interleaved_start
  interleaved_call-Ended c w addr count tx cells reading masked h =
      let fs = setup_statements addr count tx cells reading none 0 in
      let (c', w') = statements hw line fs c w in
      let same : c' ≡ run_all fs c =
        statements-masked hw line fs c w (setup-masked hw line addr count tx cells reading none 0)
          masked in
      let (c₂, w₂) = statements hw line (kick_statements reading) c' w' in
      interleaved_wait-Ended c.max_waits c₂ w₂ (kick-keeps reading c' w' (subst P (sym same) h))
