-- ===== src/Board/Calibration.antt =====
-- The calibration registers of a board (client/hardware/hv/hvmodbus.py): two numbers of 32 bits with a
-- sign, each in two registers of 16 bits, and a number in one register. The numbers are what
-- `int(slope * 10000)` gives on writing, and on reading what is divided by 10000; the threshold is the
-- number in the register.
use multi_daq.Prelude.{
  Option, none, some, ℕ, ◌-◌, ◌*◌, ◌/◌, ◌%◌, List, [], ◌∷◌, if◌then◌else◌, ◌==◌, leb,
}
use multi_daq.Prelude.Int.{ℤ, pos, negsuc}
use Prim.Native.Nat.{bit_and, bit_or}
use multi_daq.Board.Access.{
  Bus, Device, HvModbus, safe_read, safe_write, safe_write_multiple, target,
}

-- `x & 0xFFFF`
unfoldable pub low_word : ℤ → ℕ
low_word (pos n) = n % 65536
low_word (negsuc n) = 65535 - n % 65536

-- `x >> 16`
unfoldable pub shifted : ℤ → ℤ
shifted (pos n) = pos (n / 65536)
shifted (negsuc n) = negsuc (n / 65536)

abbrev pub words : ℤ → List ℕ
words z = low_word z ∷ low_word (shifted z) ∷ []

-- `a - b`
unfoldable pub minus : ℕ → ℕ → ℤ
minus a b = if leb b a then pos (a - b) else negsuc (b - a - 1)

-- `(msb << 16) | lsb`, with the sign.
unfoldable pub joined : ℕ → ℕ → ℤ
unfolding minus
joined lsb msb =
    let c = bit_or (msb * 65536) lsb in
    if bit_and c 2147483648 == 0 then pos c else minus c 4294967296

pub record Calibration : Type 0 where
  pub calibm : ℤ
  pub calibq : ℤ
  pub calibt : ℕ

-- The five registers.
abbrev pub decoded : Option (List ℕ) → Option Calibration
decoded (some (mlsb ∷ mmsb ∷ qlsb ∷ qmsb ∷ t ∷ [])) =
    some (record { calibm = joined mlsb mmsb; calibq = joined qlsb qmsb; calibt = t })
decoded _ = none

-- `readCalibRegisters`
unfoldable pub read_calib_registers : Bus → Device → HvModbus → Option Calibration
unfolding safe_read joined
read_calib_registers bus slave s = decoded (safe_read bus 48 5 (target slave s) s)

-- `writeCalibSlope`
unfoldable pub write_calib_slope : Bus → ℤ → Device → HvModbus → Option HvModbus
unfolding safe_write_multiple low_word shifted
write_calib_slope bus slope slave s = safe_write_multiple bus 48 (words slope) (target slave s) s

-- `writeCalibOffset`
unfoldable pub write_calib_offset : Bus → ℤ → Device → HvModbus → Option HvModbus
unfolding safe_write_multiple low_word shifted
write_calib_offset bus offset slave s = safe_write_multiple bus 50 (words offset) (target slave s) s

-- `writeCalibDiscr`
unfoldable pub write_calib_discr : Bus → ℕ → Device → HvModbus → Option HvModbus
unfolding safe_write
write_calib_discr bus discr slave s = safe_write bus 52 discr (target slave s) s
