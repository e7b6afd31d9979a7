-- ===== src/I2c/Fields.antt =====
-- The fields of the BSC control register, and the sequences of `I2C` that change several.
use rpi3b.Base.{
  ℕ, ◌%◌, ◌^◌, ◌≡◌, ◌≢◌, ◌<◌, arith, Bool, false, true, suc, ◌&&◌, if◌then◌else◌, ◌==◌,
}
use rpi3b.Mmio.{Mmio}
use rpi3b.Mmio.Fields.{
  FitsWord, Apart, get_field-set_field, get_field-set_field_ne, get_field-clr_field,
  get_field-clr_field_ne, set_field-value, clr_field-value,
}
use rpi3b.I2c.Registers.{Control, read, st, i2cen, c_all}
use rpi3b.I2c.{
  control_field, set_control, clr_control, get_control, enable, start_read, start_write,
}

fits : (f : Control) → FitsWord (control_field f)
fits f = ground arith

apart :
    (f f' : Control) → f ≢ f' → f ≢ c_all → f' ≢ c_all → Apart (control_field f) (control_field f')
apart f f' ne p q = ground arith

-- Whether two names are those of one field.
abbrev pub same : Control → Control → Bool
same f f' =
    (control_field f).shift == (control_field f').shift
    && (control_field f).width == (control_field f').width

same_self : (f : Control) → same f f ≡ true
same_self f = ground arith

same_ne : (f f' : Control) → f ≢ f' → f ≢ c_all → f' ≢ c_all → same f f' ≡ false
same_ne f f' ne p q = ground arith

Control-discrete : Discrete Control
Control-discrete = hlevel

get_control-set_control_self :
    (m : Mmio) (f f' : Control) (v : ℕ)
    → f ≡ f'
    → (get_control (set_control m f v) f'
        ≡ (if same f f' then v % 2 ^ (control_field f).width else get_control m f'))
      × (get_control (clr_control m f) f' ≡ (if same f f' then 0 else get_control m f'))
unfolding get_control set_control clr_control
get_control-set_control_self m f f' v e =
    rw (← e, same_self f)
      (
        get_field-set_field m 0 (control_field f) v (fits f),
        get_field-clr_field m 0 (control_field f) (fits f),
      )

-- Of two fields of the control register, neither the whole: `set_control` puts the low bits of
-- the value, as many as the field is wide, into its field, `clr_control` puts 0 there, and both
-- keep the other field. No register but the control register changes.
pub get_control-set_control :
    (m : Mmio) (f f' : Control) (v j : ℕ)
    → f ≢ c_all
    → f' ≢ c_all
    → (get_control (set_control m f v) f'
        ≡ (if same f f' then v % 2 ^ (control_field f).width else get_control m f'))
      × (get_control (clr_control m f) f' ≡ (if same f f' then 0 else get_control m f'))
      × ((set_control m f v).value (suc j) ≡ m.value (suc j))
      × ((clr_control m f).value (suc j) ≡ m.value (suc j))
unfolding get_control set_control clr_control
get_control-set_control m f f' v j p q =
    let others : ((set_control m f v).value (suc j) ≡ m.value (suc j))
        × ((clr_control m f).value (suc j) ≡ m.value (suc j)) =
      (
        ground (arith, set_field-value m 0 (control_field f) v (suc j)),
        ground (arith, clr_field-value m 0 (control_field f) (suc j)),
      ) in
    elim (Control-discrete f f') [
      | yes e ↦
          let self = get_control-set_control_self m f f' v e in (self.0, self.1, others.0, others.1)
      | no ne ↦
          let far = apart f f' ne p q in
          rw (same_ne f f' ne p q) (
            get_field-set_field_ne m 0 (control_field f) (control_field f') v (fits f') far,
            get_field-clr_field_ne m 0 (control_field f) (control_field f') (fits f') far,
            others.0,
            others.1,
          )
    ]

-- What `start_read` (with 1) and `start_write` (with 0) make of each control field.
abbrev pub started : ℕ → Control → ℕ → ℕ
started direction i2cen old = 1
started direction read old = direction
started direction st old = 1
started direction _ old = old

launch-field :
    (m : Mmio) (v : ℕ) (f : Control) (j : ℕ)
    → v < 2
    → f ≢ c_all
    → let m' = set_control (set_control (set_control m i2cen 1) read v) st 1 in
      (get_control m' f ≡ started v f (get_control m f)) × (m'.value (suc j) ≡ m.value (suc j))
launch-field m v f j small h =
    let m₁ = set_control m i2cen 1 in
    let m₂ = set_control m₁ read v in
    ground (
      arith,
      get_control-set_control m₂ st f 1 j (λ e. cc) h,
      get_control-set_control m₁ read f v j (λ e. cc) h,
      get_control-set_control m i2cen f 1 j (λ e. cc) h,
    )

-- Starting a transfer enables the controller, sets its direction and the start bit, and keeps
-- every other field of the control register and every other register.
pub start-fields :
    (m : Mmio) (f : Control) (j : ℕ)
    → f ≢ c_all
    → (get_control (start_read m) f ≡ started 1 f (get_control m f))
      × (get_control (start_write m) f ≡ started 0 f (get_control m f))
      × ((start_read m).value (suc j) ≡ m.value (suc j))
      × ((start_write m).value (suc j) ≡ m.value (suc j))
unfolding start_read start_write enable
start-fields m f j h =
    let reading = launch-field m 1 f j (omega arith) h in
    let writing = launch-field m 0 f j (omega arith) h in
    (reading.0, writing.0, reading.1, writing.1)
