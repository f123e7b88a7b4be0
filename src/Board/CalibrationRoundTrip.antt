-- ===== src/Board/CalibrationRoundTrip.antt =====
-- What is written to the calibration registers is read back (client/hardware/hv/hvmodbus.py).
use multi_daq.Prelude.{
  Bool, true, false, Option, none, some, ℕ, ◌+◌, ◌-◌, ◌*◌, ◌/◌, ◌%◌, ◌<◌, List, [], ◌∷◌, ◌≡◌, refl,
  sym, ap, ◌∙◌, arith, if◌then◌else◌, ltb, Bool-cases, inl, inr, ◌&&◌,
}
use mathlib.Core.Path.{subst}
use multi_daq.Prelude.Int.{ℤ, pos, negsuc}
use multi_daq.Prelude.Bits.{bit_or-above, bit_and-power, test_bit-top}
use multi_daq.Board.Access.{
  Bus, Device, HvModbus, safe_read, safe_write, safe_write_multiple, target, same_device,
  same_device_refl, ensure_connected, registers_from, overwritten, put,
}
use multi_daq.Board.Calibration.{
  low_word, shifted, minus, joined, Calibration, read_calib_registers, write_calib_slope,
  write_calib_offset, write_calib_discr,
}
use multi_daq.Board.Settings.{
  is_int32, Setting, slope, offset, discr, write_setting, after, write_settings, set_value,
  set_values, is_taken, fits, all_fit, outside, elsewhere,
}

joined_value :
    (l m c : ℕ)
    → l < 65536
    → m * 65536 + l ≡ c
    → c < 4294967296
    → joined l m ≡ (if ltb c 2147483648 then pos c else minus c 4294967296)
unfolding joined
joined_value l m c h e b =
    ground (arith, bit_or-above 16 m l h, e, bit_and-power 31 c, test_bit-top 31 c b)

joined-words : (z : ℤ) → is_int32 z ≡ true → joined (low_word z) (low_word (shifted z)) ≡ z
unfolding low_word shifted is_int32 minus
joined-words (pos n) h = ground (
  arith,
  h,
  joined_value (n % 65536) (n / 65536 % 65536) n (omega arith) (ground (arith, h))
      (ground (arith, h)),
)
joined-words (negsuc n) h = ground (
  arith,
  h,
  joined_value (65535 - n % 65536) (65535 - n / 65536 % 65536) (4294967295 - n) (omega arith)
      (ground (arith, h)) (ground (arith, h)),
)

abbrev calibration_of : (ℕ → ℕ) → Calibration
calibration_of r = record {
  calibm = joined (r 48) (r 49);
  calibq = joined (r 50) (r 51);
  calibt = r 52;
}

-- The registers of the board after a write.
written : Device → Setting → HvModbus → HvModbus
unfolding low_word shifted overwritten same_device
written e (slope z) s = put e 48 (low_word z ∷ low_word (shifted z) ∷ []) s
written e (offset z) s = put e 50 (low_word z ∷ low_word (shifted z) ∷ []) s
written e (discr n) s = put e 52 (n ∷ []) s

calibration_of-written :
    (e : Device) (w : Setting) (s : HvModbus)
    → fits w ≡ true
    → calibration_of ((written e w s).registers e) ≡ set_value w (calibration_of (s.registers e))
unfolding written overwritten
calibration_of-written e (slope z) s h = rw (same_device_refl e, joined-words z h) refl
calibration_of-written e (offset z) s h = rw (same_device_refl e, joined-words z h) refl
calibration_of-written e (discr n) s h = rw (same_device_refl e) refl

write_setting_lem :
    (bus : Bus) (d : Device) (w : Setting) (s : HvModbus)
    → after s (write_setting bus d w s)
      ≡ (if is_taken bus (target d s) w then written (target d s) w s else s)
unfolding write_setting is_taken written write_calib_slope write_calib_offset write_calib_discr
    safe_write safe_write_multiple
write_setting_lem bus d (slope z) s = ground arith
write_setting_lem bus d (offset z) s = ground arith
write_setting_lem bus d (discr n) s = ground arith

target-written :
    (d : Device) (w : Setting) (s : HvModbus) → target d (written (target d s) w s) ≡ target d s
unfolding written
target-written none (slope z) s = refl
target-written none (offset z) s = refl
target-written none (discr n) s = refl
target-written (some a) w s = refl

read_calib_registers_lem :
    (bus : Bus) (d : Device) (s : HvModbus)
    → read_calib_registers bus d s ≡ (
        if ensure_connected bus && bus.answers (target d s) 48 5
        then some (calibration_of (s.registers (target d s)))
        else none)
unfolding read_calib_registers safe_read registers_from
read_calib_registers_lem bus d s = ground arith

abbrev get_or : Calibration → Option Calibration → Calibration
get_or c none = c
get_or c (some x) = x

module _ (bus : Bus) (d : Device) where
  answered : HvModbus → Bool
  unfolding ensure_connected
  answered s = ensure_connected bus && bus.answers (target d s) 48 5

  read_inversion :
      (s : HvModbus) (c : Calibration)
      → read_calib_registers bus d s ≡ some c
      → (answered s ≡ true) × (calibration_of (s.registers (target d s)) ≡ c)
  unfolding answered
  read_inversion s c e =
      let r = sym (read_calib_registers_lem bus d s) ∙ e in
      elim (Bool-cases (answered s)) [
        | inl h ↦ (
          h,
          ap (get_or c) (
              sym (ap (λ b. if b then some (calibration_of (s.registers (target d s))) else none) h)
              ∙ r),
        )
        | inr h ↦ absurd (ground (arith, h, r))
      ]

  written_read :
      (w : Setting) (s : HvModbus) (c : Calibration)
      → fits w ≡ true
      → read_calib_registers bus d s ≡ some c
      → read_calib_registers bus d (written (target d s) w s) ≡ some (set_value w c)
  unfolding answered
  written_read w s c h e =
      let v = read_inversion s c e in
      let t = written (target d s) w s in
      read_calib_registers_lem bus d t
      ∙ ap
          (λ x.
            if ensure_connected bus && bus.answers x 48 5
            then some (calibration_of (t.registers x))
            else none)
          (target-written d w s)
      ∙ ap (λ b. if b then some (calibration_of (t.registers (target d s))) else none) v.0
      ∙ ap some (calibration_of-written (target d s) w s h ∙ ap (set_value w) v.1)

  written_outside :
      (w : Setting) (s : HvModbus) (e : Device) (i : ℕ)
      → outside (target d s) e i ≡ true
      → (written (target d s) w s).registers e i ≡ s.registers e i
  unfolding written overwritten
  written_outside (slope z) s e i h = ground (arith, h)
  written_outside (offset z) s e i h = ground (arith, h)
  written_outside (discr n) s e i h = ground (arith, h)

  -- What one write does, by whether it succeeds.
  Stepped : Bool → Setting → HvModbus → Calibration → HvModbus → Type 0
  Stepped b w s c t =
      (target d t ≡ target d s)
      × (read_calib_registers bus d t ≡ some (if b then set_value w c else c))
      × ((e : Device) (i : ℕ) → outside (target d s) e i ≡ true → t.registers e i ≡ s.registers e i)

  step-Stepped :
      (b : Bool) (w : Setting) (s : HvModbus) (c : Calibration)
      → fits w ≡ true
      → read_calib_registers bus d s ≡ some c
      → Stepped b w s c (if b then written (target d s) w s else s)
  unfolding Stepped
  step-Stepped true w s c h r = (target-written d w s, written_read w s c h r, written_outside w s)
  step-Stepped false w s c h r = (refl, r, λ e i o. refl)

settings_kept :
    (bus : Bus) (d : Device) (ws : List Setting) (s : HvModbus) (c : Calibration)
    → all_fit ws ≡ true
    → read_calib_registers bus d s ≡ some c
    → (read_calib_registers bus d (write_settings bus d ws s)
        ≡ some (set_values (is_taken bus (target d s)) ws c))
      × ((e : Device) (i : ℕ)
          → outside (target d s) e i ≡ true
          → (write_settings bus d ws s).registers e i ≡ s.registers e i)
unfolding write_settings set_values all_fit Stepped
settings_kept bus d [] s c h r = (r, λ e i o. refl)
settings_kept bus d (w ∷ ws) s c h r =
    let b = is_taken bus (target d s) w in
    let t = after s (write_setting bus d w s) in
    let v =
      subst (Stepped bus d b w s c) (sym (write_setting_lem bus d w s))
        (step-Stepped bus d b w s c (ground (arith, h)) r) in
    let c1 = if b then set_value w c else c in
    let rest = settings_kept bus d ws t c1 (ground (arith, h)) v.1 in
    (
      rest.0 ∙ ap (λ x. some (set_values (is_taken bus x) ws c1)) v.0,
      λ e i o. rest.1 e i (ap (λ x. outside x e i) v.0 ∙ o) ∙ v.2 e i o,
    )

-- Whatever slopes, offsets and thresholds are written to the calibration registers of a board, in any
-- order, reading them gives for each the last value whose write succeeded, and the value from before
-- where there is none: the slopes and offsets are numbers of 32 bits with a sign, and reading succeeds
-- before. No other register is changed.
pub settings_read_back :
    (bus : Bus) (d : Device) (ws : List Setting) (s : HvModbus) (c : Calibration)
    → all_fit ws ≡ true
    → read_calib_registers bus d s ≡ some c
    → (read_calib_registers bus d (write_settings bus d ws s)
        ≡ some (set_values (is_taken bus (target d s)) ws c))
      × ((e : Device) (i : ℕ)
          → elsewhere (target d s) (write_settings bus d ws s) e i ≡ elsewhere (target d s) s e i)
settings_read_back bus d ws s c h r =
    let k = settings_kept bus d ws s c h r in
    (
      k.0,
      λ e i. elim (Bool-cases (outside (target d s) e i)) [
        | inl o ↦ ground (arith, o, k.1 e i o)
        | inr o ↦ ground (arith, o)
      ],
    )
