-- ===== src/Rc/Registers.antt =====
-- The register file of class RC and its single accesses (client/hardware/rc/rc_interface.py). The
-- registers are memory that the process maps: a read gives what stands there. Accesses fail when the
-- mapping failed (`mapped` is false), at an address out of bounds, and for a value that does not fit.
use multi_daq.Prelude.{
  Bool, true, false, not, Option, none, some, ℕ, ◌≤◌, List, [], ◌∷◌, if◌then◌else◌, ◌&&◌, ◌==◌, ltb,
  leb, is_empty, select,
}
use multi_daq.Prelude.Int.{ℤ, pos, negsuc}

pub record Rc : Type 0 where
  pub mapped : Bool
  pub regs : ℕ → ℕ

abbrev pub max_regs : ℕ
max_regs = 50

abbrev pub num_channels : ℕ
num_channels = 7

-- MAX_REGISTER_VALUE
abbrev pub max_register_value : ℕ
max_register_value = 4294967295

-- Every register holds 32 bits.
abbrev pub Fits : Rc → Type 0
Fits s = (a : ℕ) → s.regs a ≤ max_register_value

-- `checkRegBoundary`, with the address that it accepts.
unfoldable pub check_reg_boundary : ℤ → Option ℕ
check_reg_boundary (pos a) = if leb a max_regs then some a else none
check_reg_boundary (negsuc a) = none

unfoldable pub check_channels_boundary : ℕ → Bool
check_channels_boundary ch = ltb ch num_channels

-- `self.regs[addr*4:(addr*4)+4]` as a number.
abbrev pub loaded : Rc → Option ℕ → Option ℕ
loaded s none = none
loaded s (some a) = if s.mapped then some (s.regs a) else none

unfoldable pub read : ℤ → Rc → Option ℕ
unfolding check_reg_boundary
read addr s = loaded s (check_reg_boundary addr)

abbrev pub put : ℕ → ℕ → Rc → Rc
put a v s = record s { regs = λ r. if r == a then v else s.regs r }

-- `int.to_bytes(value, 4)`; `none` is OverflowError.
abbrev pub to_bytes : ℤ → Option ℕ
to_bytes (pos v) = if leb v max_register_value then some v else none
to_bytes (negsuc v) = none

abbrev pub stored : ℕ → Option ℕ → Rc → Bool × Rc
stored a none s = (false, s)
stored a (some v) s = if s.mapped then (true, put a v s) else (false, s)

abbrev pub write_checked : Option ℕ → ℤ → Rc → Bool × Rc
write_checked none v s = (false, s)
write_checked (some a) v s = stored a (to_bytes v) s

unfoldable pub write : ℤ → ℤ → Rc → Bool × Rc
unfolding check_reg_boundary
write addr value s = write_checked (check_reg_boundary addr) value s

-- What `read_register` and `write_register` return: success, address and value.
pub record RegisterReply : Type 0 where
  pub success : Bool
  pub address : ℤ
  pub value : Option ℤ

abbrev read_reply : ℤ → Option ℕ → RegisterReply
read_reply a none = record { success = false; address = a; value = none }
read_reply a (some v) = record { success = true; address = a; value = some (pos v) }

unfoldable pub read_register : ℤ → Rc → RegisterReply
unfolding read
read_register address s = read_reply address (read address s)

unfoldable pub write_register : ℤ → ℤ → Rc → RegisterReply × Rc
unfolding write
write_register address value s =
    let w = write address value s in
    (record { success = w.0; address = address; value = some value }, w.1)

-- RC_HARDWARE_SNAPSHOT
abbrev pub rc_hardware_snapshot : List ℤ
rc_hardware_snapshot =
    pos 0 ∷ pos 1 ∷ pos 10 ∷ pos 15 ∷ pos 16 ∷ pos 18 ∷ pos 19 ∷ pos 31 ∷ pos 39 ∷ []

-- Equal addresses.
abbrev same_address : ℤ → ℤ → Bool
same_address (pos a) (pos b) = a == b
same_address (negsuc a) (negsuc b) = a == b
same_address _ _ = false

-- The dictionary of `read_acq_registers`: a repeated address stands once, at its first place.
unfoldable pub values_at : List ℤ → Rc → List (ℤ × Option ℕ)
unfolding read
values_at [] s = []
values_at (a ∷ rest) s = (a, read a s) ∷ select (λ e. not (same_address e.0 a)) (values_at rest s)

unfoldable pub read_acq_registers : List ℤ → Rc → List (ℤ × Option ℕ)
unfolding values_at
read_acq_registers addresses s =
    values_at (if is_empty addresses then rc_hardware_snapshot else addresses) s

-- `a and b` of two writes: the second one is left out when the first fails.
abbrev pub and_write : Bool × Rc → ℤ → ℤ → Bool × Rc
and_write w addr value = elim w.0 [ true ↦ write addr value w.1 | false ↦ w ]

-- Two writes, one after the other.
abbrev pub also_write : Bool × Rc → ℤ → ℤ → Bool × Rc
also_write w addr value = let next = write addr value w.1 in (w.0 && next.0, next.1)

-- A call that raises leaves the registers as they are.
abbrev pub after : {A : Type 0} → Rc → Option (A × Rc) → Rc
after s none = s
after s (some q) = q.1
