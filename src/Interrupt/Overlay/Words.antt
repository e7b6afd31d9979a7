-- ===== src/Interrupt/Overlay/Words.antt =====
-- The words of a region that stand for the parts of an IRQ object, and what a store does to them.
use rpi3b.Base.{
  ℕ, ◌+◌, ◌*◌, ◌/◌, ◌%◌, ◌^◌, ◌<◌, ◌≡◌, ◌≢◌, ◌⊎◌, inl, inr, ◌∙◌, ap, ap₂, refl, Option, ◌==◌, arith,
  Bool-cases, ==_refl,
}
use rpi3b.Interrupt.{Code, Irq, max_handlers, assign}
use rpi3b.Interrupt.Overlay.{
  Pointers, Placed, irqs_all_max, vector_count, arm_local_max, local_word_offset, ivt_word_offset,
  slot_at, handler_at, load_pointer, store_pointer, put_word, put_pointer,
}
use rpi3b.Mmio.{update, store}

-- The region holds the object: every register and every pointer of it stands in its place.
pub record Holds (p : Pointers) (o : Placed) (irq : Irq) : Type 0 where
  pub memory : (i : ℕ) → i < irqs_all_max → o.words i ≡ irq.memory.value i
  pub slots : (i : ℕ) → i < vector_count → load_pointer p o.words (slot_at i) ≡ irq.ivt.slots i
  pub handlers :
      (i : ℕ) → i < max_handlers → load_pointer p o.words (handler_at i) ≡ irq.ivt.handlers i
  pub local : (i : ℕ) → i < arm_local_max → o.words (local_word_offset + i) ≡ irq.local.value i
  pub vbar : o.vbar ≡ irq.vbar
  pub active : o.active ≡ irq.active

-- The pointer can be read back after it was stored in 64 bits.
abbrev pub Fits : Pointers → Option Code → Type 0
Fits p cb = p.decode (p.encode cb % 2 ^ 64) ≡ cb

-- The pointer's two words joined again.
joined : (x : ℕ) → x % 2 ^ 32 + 2 ^ 32 * (x / 2 ^ 32 % 2 ^ 32) ≡ x % 2 ^ 64
joined x = omega arith

first_word :
    (p : Pointers) (words : ℕ → ℕ) (at : ℕ) (cb : Option Code)
    → store_pointer p words at cb at ≡ p.encode cb % 2 ^ 32
unfolding store_pointer
first_word p words at cb = ground arith

second_word :
    (p : Pointers) (words : ℕ → ℕ) (at : ℕ) (cb : Option Code)
    → store_pointer p words at cb (at + 1) ≡ p.encode cb / 2 ^ 32 % 2 ^ 32
unfolding store_pointer
second_word p words at cb = ground arith

-- The words of other places stay.
other_word :
    (p : Pointers) (words : ℕ → ℕ) (at k : ℕ) (cb : Option Code)
    → k ≢ at
    → k ≢ at + 1
    → store_pointer p words at cb k ≡ words k
unfolding store_pointer
other_word p words at k cb ne ne' = ground arith

load_pointer-store_pointer :
    (p : Pointers) (words : ℕ → ℕ) (at : ℕ) (cb : Option Code)
    → Fits p cb
    → load_pointer p (store_pointer p words at cb) at ≡ cb
unfolding load_pointer
load_pointer-store_pointer p words at cb fits =
    ap₂ (λ (lo hi : ℕ). p.decode (lo + 2 ^ 32 * hi)) (first_word p words at cb)
      (second_word p words at cb)
    ∙ ap p.decode (joined (p.encode cb))
    ∙ fits

-- A store into other words changes no pointer.
load_pointer-apart :
    (p : Pointers) (words words' : ℕ → ℕ) (at : ℕ)
    → words' at ≡ words at
    → words' (at + 1) ≡ words (at + 1)
    → load_pointer p words' at ≡ load_pointer p words at
unfolding load_pointer
load_pointer-apart p words words' at e e' = ap₂ (λ (lo hi : ℕ). p.decode (lo + 2 ^ 32 * hi)) e e'

module _ (p : Pointers) (o : Placed) (irq : Irq) (h : Holds p o irq) where
  pub put_word-memory :
      (k v : ℕ)
      → k < irqs_all_max
      → Holds p (put_word o k v) (record irq { memory = store irq.memory k v })
  unfolding store
  put_word-memory k v lt = record {
    memory = λ i lt'. ground (arith, h.memory i lt');
    slots = λ i lt'.
        load_pointer-apart p o.words (update o.words k v) (slot_at i) (ground arith) (ground arith)
        ∙ h.slots i lt';
    handlers = λ i lt'.
        load_pointer-apart p o.words (update o.words k v) (handler_at i) (ground arith)
          (ground arith)
        ∙ h.handlers i lt';
    local = λ i lt'. ground (arith, h.local i lt');
    vbar = h.vbar;
    active = h.active;
  }

  pub put_word-local :
      (k v : ℕ)
      → k < arm_local_max
      → Holds p (put_word o (local_word_offset + k) v) (record irq { local = store irq.local k v })
  unfolding store
  put_word-local k v lt = record {
    memory = λ i lt'. ground (arith, h.memory i lt');
    slots = λ i lt'.
        load_pointer-apart p o.words (update o.words (local_word_offset + k) v) (slot_at i)
          (ground arith) (ground arith)
        ∙ h.slots i lt';
    handlers = λ i lt'.
        load_pointer-apart p o.words (update o.words (local_word_offset + k) v) (handler_at i)
          (ground arith) (ground arith)
        ∙ h.handlers i lt';
    local = λ i lt'. ground (arith, h.local i lt');
    vbar = h.vbar;
    active = h.active;
  }

  -- A pointer stored at one place of a table is loaded from there, and from no other.
  pointer_at :
      (f : ℕ → Option Code) (at : ℕ → ℕ) (base n k i : ℕ) (cb : Option Code)
      → ((j : ℕ) → at j ≡ base + 2 * j)
      → Fits p cb
      → i < n
      → ((j : ℕ) → j < n → load_pointer p o.words (at j) ≡ f j)
      → load_pointer p (store_pointer p o.words (at k) cb) (at i) ≡ assign f k cb i
  pointer_at f at base n k i cb spaced fits lt held = elim (Bool-cases (k == i)) [
    | inl e ↦
        let same : k ≡ i = ground arith in
        rw (← same) (load_pointer-store_pointer p o.words (at k) cb fits ∙ (rw (==_refl k) refl))
    | inr e ↦
        let ne : k ≢ i = ground arith in
        rw e (
          load_pointer-apart p o.words (store_pointer p o.words (at k) cb) (at i)
            (other_word p o.words (at k) (at i) cb (λ q. ne (omega (arith, spaced k, spaced i)))
              (λ q. omega (arith, spaced k, spaced i)))
            (other_word p o.words (at k) (at i + 1) cb (λ q. omega (arith, spaced k, spaced i))
              (λ q. ne (omega (arith, spaced k, spaced i))))
          ∙ held i lt)
  ]

  -- Pointers of another table stay.
  pointer_kept :
      (at k : ℕ) (cb : Option Code)
      → (at + 1 < k) ⊎ (k + 1 < at)
      → load_pointer p (store_pointer p o.words k cb) at ≡ load_pointer p o.words at
  pointer_kept at k cb apart =
      load_pointer-apart p o.words (store_pointer p o.words k cb) at
        (other_word p o.words k at cb (λ q. ground arith) (λ q. ground arith))
        (other_word p o.words k (at + 1) cb (λ q. ground arith) (λ q. ground arith))

  pub put_pointer-slot :
      (k : ℕ) (cb : Option Code)
      → k < vector_count
      → Fits p cb
      → Holds p
          (put_pointer p o (slot_at k) cb)
          (record irq { ivt = record irq.ivt { slots = assign irq.ivt.slots k cb } })
  put_pointer-slot k cb lt fits = record {
    memory = λ i lt'.
        other_word p o.words (slot_at k) i cb (λ q. omega arith) (λ q. omega arith)
        ∙ h.memory i lt';
    slots = λ i lt'.
        pointer_at irq.ivt.slots slot_at ivt_word_offset vector_count k i cb (λ j. refl) fits lt'
          h.slots;
    handlers =
        λ i lt'. pointer_kept (handler_at i) (slot_at k) cb (inr (omega arith)) ∙ h.handlers i lt';
    local = λ i lt'.
        other_word p o.words (slot_at k) (local_word_offset + i) cb (λ q. omega arith)
          (λ q. omega arith)
        ∙ h.local i lt';
    vbar = h.vbar;
    active = h.active;
  }

  pub put_pointer-handler :
      (k : ℕ) (cb : Option Code)
      → k < max_handlers
      → Fits p cb
      → Holds p
          (put_pointer p o (handler_at k) cb)
          (record irq { ivt = record irq.ivt { handlers = assign irq.ivt.handlers k cb } })
  put_pointer-handler k cb lt fits = record {
    memory = λ i lt'.
        other_word p o.words (handler_at k) i cb (λ q. omega arith) (λ q. omega arith)
        ∙ h.memory i lt';
    slots = λ i lt'. pointer_kept (slot_at i) (handler_at k) cb (inl (omega arith)) ∙ h.slots i lt';
    handlers = λ i lt'.
        pointer_at irq.ivt.handlers handler_at (handler_at 0) max_handlers k i cb (λ j. omega arith)
          fits lt' h.handlers;
    local = λ i lt'.
        other_word p o.words (handler_at k) (local_word_offset + i) cb (λ q. omega arith)
          (λ q. omega arith)
        ∙ h.local i lt';
    vbar = h.vbar;
    active = h.active;
  }
