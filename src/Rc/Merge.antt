-- ===== src/Rc/Merge.antt =====
-- The part of `set_acq_registers` that changes register 15
-- (client/hardware/rc/rc_interface.py).
use multi_daq.Prelude.{
  Bool, true, false, Option, none, some, ℕ, ◌≤◌, List, [], ◌∷◌, ◌++◌, ◌≡◌, refl, sym, arith,
  if◌then◌else◌, ◌==◌, is_some, get_or, Option-cases, inl, inr,
}
use multi_daq.Prelude.Dict.{Dict, find}
use multi_daq.Prelude.Bits.{test_bit, test_bit-merge, bit_or_lt, bit_and_le, and_not}
use multi_daq.Prelude.Int.{ℤ, pos, negsuc}
use multi_daq.Message.Protocol.{Json, null}
use multi_daq.Rc.Registers.{max_register_value, check_reg_boundary, read, write}
use multi_daq.Rc.Acquisition.{
  Name, address, Progress, set_reg15, reg15_setting, allowed_bits, merged_15, unsigned_32, field_32,
  python_int,
}
use mathlib.Core.List.{append-nil}
use Prim.Native.Nat.{bit_and}

-- The mask and the value that a configuration of register 15 has, if it is given and valid.
abbrev pub setting_of : Option (Dict Json) → Option (ℕ × ℕ)
setting_of none = none
setting_of (some d) = reg15_setting d

-- A bit of register 15 afterwards.
abbrev pub bit_15 : Option (ℕ × ℕ) → ℕ → Bool → Bool
bit_15 none i before = before
bit_15 (some (m, v)) i before = if test_bit i m then test_bit i v else before

abbrev pub done_15 : Option (ℕ × ℕ) → List ℕ
done_15 none = []
done_15 (some b) = 15 ∷ []

abbrev pub failed_15 : Option (Dict Json) → List Name
failed_15 none = []
failed_15 (some d) = if is_some (reg15_setting d) then [] else address (pos 15) ∷ []

pub record Merged (o : Option (Dict Json)) (p q : Progress) : Type 0 where
  pub bits :
      (i : ℕ) → test_bit i (q.rc.regs 15) ≡ bit_15 (setting_of o) i (test_bit i (p.rc.regs 15))
  pub others : (r : ℕ) → (r == 15) ≡ false → q.rc.regs r ≡ p.rc.regs r
  pub succeeded : q.successful ≡ p.successful ++ done_15 (setting_of o)
  pub failures_noted : q.failed ≡ p.failed ++ failed_15 o

unsigned_32-le : (o : Option ℤ) (v : ℕ) → unsigned_32 o ≡ some v → v ≤ max_register_value
unsigned_32-le none v e = ground arith
unsigned_32-le (some (negsuc n)) v e = ground arith
unsigned_32-le (some (pos n)) v e = ground arith

allowed_bits-some : (a b : Option ℕ) (m v : ℕ) → allowed_bits a b ≡ some (m, v) → b ≡ some v
allowed_bits-some none b m v e = ground arith
allowed_bits-some (some x) none m v e = ground arith
allowed_bits-some (some x) (some y) m v e = ground arith

setting-le : (d : Dict Json) (m v : ℕ) → reg15_setting d ≡ some (m, v) → v ≤ max_register_value
unfolding reg15_setting
setting-le d m v e =
    unsigned_32-le (python_int (get_or (find "value" d) null)) v
      (allowed_bits-some (field_32 "mask" d) (field_32 "value" d) m v e)

merged-le :
    (p m v : ℕ)
    → p ≤ max_register_value
    → v ≤ max_register_value
    → merged_15 p m v ≤ max_register_value
merged-le p m v h w = omega (
  arith,
  bit_or_lt 32 (bit_and p (and_not max_register_value m)) (bit_and v m)
      (omega (arith, bit_and_le p p (and_not max_register_value m) (omega arith)))
      (omega (arith, bit_and_le v v m (omega arith))),
)

pub set_reg15-Merged :
    (o : Option (Dict Json)) (p : Progress)
    → p.rc.mapped ≡ true
    → p.rc.regs 15 ≤ max_register_value
    → Merged o p (set_reg15 o p)
unfolding set_reg15 read write check_reg_boundary
set_reg15-Merged none p f w = record {
  bits = λ i. refl;
  others = λ r h. refl;
  succeeded = sym (append-nil p.successful);
  failures_noted = sym (append-nil p.failed);
}
set_reg15-Merged (some d) p f w = elim (Option-cases (reg15_setting d)) [
  | inl e ↦ record {
    bits = λ i. ground (arith, e);
    others = λ r h. ground (arith, e);
    succeeded = ground (arith, e, append-nil p.successful);
    failures_noted = ground (arith, e);
  }
  | inr ((m, v), e) ↦
      let le = merged-le (p.rc.regs 15) m v w (setting-le d m v e) in
      record {
        bits = λ i. ground (arith, e, le, test_bit-merge 32 i (p.rc.regs 15) m v (omega arith));
        others = λ r h. ground (arith, e, le);
        succeeded = ground (arith, e, le);
        failures_noted = ground (arith, e, le, append-nil p.failed);
      }
]
