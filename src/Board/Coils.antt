-- ===== src/Board/Coils.antt =====
-- The coils of a board, by which it is switched on and off and reset, and the end of the serial
-- line (client/hardware/hv/hvmodbus.py).
use multi_daq.Prelude.{
  Bool, true, false, Option, none, some, ℕ, if◌then◌else◌, ◌&&◌, ◌==◌, ◌≡◌, refl, arith, Bool-cases,
  inl, inr, get_or, ap, sym, ◌∙◌,
}
use multi_daq.Board.Access.{
  Device, Bus, HvModbus, ensure_connected, safe_read, safe_write, same_device, target, is_connected,
}

-- Whether a write of a coil (its address and value) is answered without an error.
abbrev pub CoilAnswers : Type 0
CoilAnswers = Device → ℕ → Bool → Bool

-- The coils of the boards are memory: each holds what was last written to it.
abbrev pub Coils : Type 0
Coils = Device → ℕ → Bool

-- `_safe_write_coil`; `none` is ModbusException.
unfoldable pub safe_write_coil : Bus → CoilAnswers → ℕ → Bool → Device → Coils → Option Coils
unfolding ensure_connected same_device
safe_write_coil bus takes addr value d coils =
    if ensure_connected bus && takes d addr value
    then some (λ e i. if same_device d e && (i == addr) then value else coils e i)
    else none

unfoldable pub power_on : Bus → CoilAnswers → Device → HvModbus → Coils → Option Coils
unfolding safe_write_coil
power_on bus takes slave s = safe_write_coil bus takes 1 true (target slave s)

unfoldable pub power_off : Bus → CoilAnswers → Device → HvModbus → Coils → Option Coils
unfolding safe_write_coil
power_off bus takes slave s = safe_write_coil bus takes 1 false (target slave s)

unfoldable pub reset : Bus → CoilAnswers → Device → HvModbus → Coils → Option Coils
unfolding safe_write_coil
reset bus takes slave s = safe_write_coil bus takes 2 true (target slave s)

-- `close`: there is no client any more, and `_ensure_connected` cannot connect one.
unfoldable pub close : Bus → Bus
close bus = record bus { connected = false; connects = false }

-- `checkConnection`
unfoldable pub check_connection : HvModbus → Bool
unfolding is_connected
check_connection s = is_connected s

-- A command that is not refused writes the one coil of the board, and no other coil of any board.
coil_written :
    (bus : Bus) (takes : CoilAnswers) (addr : ℕ) (value : Bool) (d : Device) (coils after : Coils)
    → safe_write_coil bus takes addr value d coils ≡ some after
    → (e : Device) (i : ℕ)
    → after e i ≡ (if same_device d e && (i == addr) then value else coils e i)
unfolding safe_write_coil
coil_written bus takes addr value d coils after h e i =
    elim (Bool-cases (ensure_connected bus && takes d addr value)) [
      | inl taken ↦ ap (λ o. get_or o coils e i) (sym h) ∙ rw (safe_write_coil, taken) refl
      | inr refused ↦ ground arith
    ]

-- After `close` no access succeeds.
closed_fails :
    (bus : Bus) (takes : CoilAnswers) (addr n : ℕ) (d : Device) (s : HvModbus) (coils : Coils)
    → (safe_read (close bus) addr n d s ≡ none)
      × (safe_write (close bus) addr n d s ≡ none)
      × (safe_write_coil (close bus) takes addr true d coils ≡ none)
unfolding close safe_read safe_write safe_write_coil ensure_connected
closed_fails bus takes addr n d s coils = (refl, refl, refl)
