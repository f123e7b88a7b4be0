-- ===== src/Board/Settings.antt =====
-- Sequences of writes to the calibration registers (client/hardware/hv/hvmodbus.py), and what they do to
-- the values that the registers stand for.
use multi_daq.Prelude.{
  Bool, true, not, Option, none, some, ℕ, List, [], ◌∷◌, if◌then◌else◌, ltb, leb, ◌&&◌,
}
use multi_daq.Prelude.Int.{ℤ, pos, negsuc}
use multi_daq.Board.Access.{Bus, Device, HvModbus, same_device, ensure_connected}
use multi_daq.Board.Calibration.{
  low_word, shifted, Calibration, write_calib_slope, write_calib_offset, write_calib_discr,
}

-- A number of 32 bits with a sign.
unfoldable pub is_int32 : ℤ → Bool
is_int32 (pos n) = ltb n 2147483648
is_int32 (negsuc n) = ltb n 2147483648

-- The three values that can be set.
pub data Setting : Type 0 where
  slope offset : ℤ → Setting
  discr : ℕ → Setting

unfoldable pub write_setting : Bus → Device → Setting → HvModbus → Option HvModbus
write_setting bus d (slope z) s = write_calib_slope bus z d s
write_setting bus d (offset z) s = write_calib_offset bus z d s
write_setting bus d (discr n) s = write_calib_discr bus n d s

-- A write that raises leaves the boards as they are.
abbrev pub after : HvModbus → Option HvModbus → HvModbus
after s none = s
after s (some t) = t

unfoldable pub write_settings : Bus → Device → List Setting → HvModbus → HvModbus
unfolding write_setting
write_settings bus d [] s = s
write_settings bus d (w ∷ ws) s = write_settings bus d ws (after s (write_setting bus d w s))

-- The same on what the registers stand for, where `is_taken` says which writes succeed.
abbrev pub set_value : Setting → Calibration → Calibration
set_value (slope z) c = record c { calibm = z }
set_value (offset z) c = record c { calibq = z }
set_value (discr n) c = record c { calibt = n }

unfoldable pub set_values : (Setting → Bool) → List Setting → Calibration → Calibration
set_values is_taken [] c = c
set_values is_taken (w ∷ ws) c = set_values is_taken ws (if is_taken w then set_value w c else c)

unfoldable pub is_taken : Bus → Device → Setting → Bool
unfolding ensure_connected low_word shifted
is_taken bus e (slope z) =
    ensure_connected bus && bus.takes e 48 (low_word z ∷ low_word (shifted z) ∷ [])
is_taken bus e (offset z) =
    ensure_connected bus && bus.takes e 50 (low_word z ∷ low_word (shifted z) ∷ [])
is_taken bus e (discr n) = ensure_connected bus && bus.takes e 52 (n ∷ [])

abbrev pub fits : Setting → Bool
fits (slope z) = is_int32 z
fits (offset z) = is_int32 z
fits (discr n) = true

unfoldable pub all_fit : List Setting → Bool
unfolding is_int32
all_fit [] = true
all_fit (w ∷ ws) = fits w && all_fit ws

-- A register that stands outside the calibration of the board.
abbrev pub outside : Device → Device → ℕ → Bool
outside d e i = not (same_device e d && leb 48 i && leb i 52)

-- The registers outside the calibration of the board, and 0 for the others.
abbrev pub elsewhere : Device → HvModbus → Device → ℕ → ℕ
elsewhere d s e i = if outside d e i then s.registers e i else 0
