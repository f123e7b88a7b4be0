-- ===== src/Rc/Acquisition.antt =====
-- `set_acq_registers` of class RC (client/hardware/rc/rc_interface.py). The members of a JSON object
-- have different names; messages and the details of `register_results` are left out.
use multi_daq.Prelude.{
  Bool, true, false, Option, none, some, ℕ, String, List, [], ◌∷◌, ◌++◌, if◌then◌else◌, ◌&&◌, ◌||◌,
  ◌==◌, leb, is_empty, get_or,
}
use multi_daq.Prelude.Dict.{Dict, find}
use multi_daq.Prelude.Bits.{and_not}
use multi_daq.Prelude.Int.{ℤ, pos, negsuc, int_of_literal}
use multi_daq.Message.Protocol.{Json, null, boolean, integer, object, no_members}
use multi_daq.Message.Handler.{dict_of}
use multi_daq.Rc.Registers.{Rc, max_register_value, read, write}
use Prim.Native.Nat.{bit_and, bit_or}

-- ACQ_CONFIG_REGISTERS
unfoldable pub is_acq_register : ℕ → Bool
is_acq_register a = a == 16 || a == 18 || a == 19 || a == 31 || a == 39

-- ACQ_REGISTER_WRITE_ORDER
abbrev pub acq_register_write_order : List ℕ
acq_register_write_order = 16 ∷ 18 ∷ 31 ∷ 39 ∷ 19 ∷ []

-- TRIGGER_REG15_ALLOWED_MASK: bits 1, 4, 7 and 8.
abbrev pub trigger_reg15_allowed_mask : ℕ
trigger_reg15_allowed_mask = 402

-- What stands in `failed_registers`: a number, or a text that is none.
pub data Name : Type 0 where
  address : ℤ → Name
  raw : String → Name

pub record AcqReply : Type 0 where
  pub success : Bool
  pub successful_registers : List ℕ
  pub failed_registers : List Name

-- `isinstance(value, int)`: a bool is one.
unfoldable pub python_int : Json → Option ℤ
python_int (integer v) = some v
python_int (boolean b) = some (pos (if b then 1 else 0))
python_int _ = none

-- An integer of 32 bits.
abbrev pub unsigned_32 : Option ℤ → Option ℕ
unsigned_32 (some (pos v)) = if leb v max_register_value then some v else none
unsigned_32 _ = none

-- One entry of `registers`: the register and the value to write, or what is reported as failed.
pub data Entry : Type 0 where
  write_entry : ℕ → ℕ → Entry
  failed_entry : Name → Entry

abbrev pub entry_value : ℕ → Option ℕ → Entry
entry_value a none = failed_entry (address (pos a))
entry_value a (some v) = write_entry a v

abbrev pub entry_at : String → Option ℤ → Json → Entry
entry_at k none v = failed_entry (raw k)
entry_at k (some (negsuc a)) v = failed_entry (address (negsuc a))
entry_at k (some (pos a)) v =
    if is_acq_register a
    then entry_value a (unsigned_32 (python_int v))
    else failed_entry (address (pos a))

unfoldable pub entry : String → Json → Entry
unfolding is_acq_register python_int
entry k v = entry_at k (int_of_literal k) v

-- `normalized_registers`, and the failures of the loop that fills it. A later entry for the same
-- register replaces an earlier one.
pub record Normalized : Type 0 where
  pub values : ℕ → Option ℕ
  pub failed : List Name

abbrev pub note_entry : Entry → Normalized → Normalized
note_entry (write_entry a v) n = record n { values = λ r. if r == a then some v else n.values r }
note_entry (failed_entry f) n = record n { failed = n.failed ++ f ∷ [] }

unfoldable pub normalize : Dict Json → Normalized → Normalized
unfolding entry
normalize [] n = n
normalize ((k, v) ∷ d) n = normalize d (note_entry (entry k v) n)

-- The state and the lists of the reply, while the registers are written.
pub record Progress : Type 0 where
  pub rc : Rc
  pub successful : List ℕ
  pub failed : List Name

abbrev pub note_write : ℕ → Bool × Rc → Progress → Progress
note_write a (true, s) p = record p { rc = s; successful = p.successful ++ a ∷ [] }
note_write a (false, s) p = record p { rc = s; failed = p.failed ++ address (pos a) ∷ [] }

abbrev pub write_value : ℕ → Option ℕ → Progress → Progress
write_value a none p = p
write_value a (some v) p = note_write a (write (pos a) (pos v) p.rc) p

unfoldable pub write_values : (ℕ → Option ℕ) → List ℕ → Progress → Progress
unfolding write
write_values values [] p = p
write_values values (a ∷ rest) p = write_values values rest (write_value a (values a) p)

-- The mask and the value of a valid configuration of register 15.
abbrev pub allowed_bits : Option ℕ → Option ℕ → Option (ℕ × ℕ)
allowed_bits none v = none
allowed_bits (some m) none = none
allowed_bits (some m) (some v) =
    if and_not m trigger_reg15_allowed_mask == 0 && and_not v m == 0 then some (m, v) else none

-- A field of the configuration that is an integer of 32 bits.
abbrev pub field_32 : String → Dict Json → Option ℕ
field_32 name d = unsigned_32 (python_int (get_or (find name d) null))

unfoldable pub reg15_setting : Dict Json → Option (ℕ × ℕ)
unfolding python_int
reg15_setting d = allowed_bits (field_32 "mask" d) (field_32 "value" d)

abbrev pub fail_15 : Progress → Progress
fail_15 p = record p { failed = p.failed ++ address (pos 15) ∷ [] }

-- `(previous & (~mask & MAX_REGISTER_VALUE)) | (value & mask)`
abbrev pub merged_15 : ℕ → ℕ → ℕ → ℕ
merged_15 previous m v = bit_or (bit_and previous (and_not max_register_value m)) (bit_and v m)

-- Read, modify and write register 15.
abbrev pub write_15 : ℕ × ℕ → Option ℕ → Progress → Progress
write_15 (m, v) none p = fail_15 p
write_15 (m, v) (some previous) p =
    note_write 15 (write (pos 15) (pos (merged_15 previous m v)) p.rc) p

abbrev pub apply_15 : Option (ℕ × ℕ) → Progress → Progress
apply_15 none p = fail_15 p
apply_15 (some b) p = write_15 b (read (pos 15) p.rc) p

-- `reg15_config`, when it is given.
unfoldable pub set_reg15 : Option (Dict Json) → Progress → Progress
unfolding read write reg15_setting
set_reg15 none p = p
set_reg15 (some d) p = apply_15 (reg15_setting d) p

abbrev pub no_values : Normalized
no_values = record { values = λ a. none; failed = [] }

abbrev pub begin : Rc → List Name → Progress
begin s failed = record { rc = s; successful = []; failed = failed }

-- From the two parts of the configuration on.
unfoldable pub set_parts : Dict Json → Option (Dict Json) → Rc → Progress
unfolding normalize write_values set_reg15
set_parts registers reg15 s =
    let n = normalize registers no_values in
    set_reg15 reg15 (write_values n.values acq_register_write_order (begin s n.failed))

abbrev pub acq_reply : Progress → AcqReply × Rc
acq_reply p = (
  record {
    success = is_empty p.failed;
    successful_registers = p.successful;
    failed_registers = p.failed;
  },
  p.rc,
)

-- An early return.
abbrev pub acq_refused : List Name → Rc → AcqReply × Rc
acq_refused failed s =
    (record { success = false; successful_registers = []; failed_registers = failed }, s)

abbrev pub with_registers : Json → Json → Rc → AcqReply × Rc
with_registers (object registers) null s = acq_reply (set_parts (dict_of registers) none s)
with_registers (object registers) (object config) s =
    acq_reply (set_parts (dict_of registers) (some (dict_of config)) s)
with_registers (object registers) _ s = acq_refused (address (pos 15) ∷ []) s
with_registers _ reg15 s = acq_refused [] s

unfoldable pub set_acq_registers : Json → Rc → AcqReply × Rc
unfolding dict_of set_parts
set_acq_registers (object config) s =
    with_registers (get_or (find "registers" (dict_of config)) (object no_members))
      (get_or (find "reg15" (dict_of config)) null) s
set_acq_registers _ s = acq_refused [] s
