-- ===== src/Rc/Applied.antt =====
-- What `set_acq_registers` does to the registers, and what it reports
-- (client/hardware/rc/rc_interface.py).
use multi_daq.Prelude.{
  Bool, true, false, Option, none, some, ℕ, ◌≤◌, List, [], ◌∷◌, ◌++◌, ◌≡◌, refl, sym, ap, ◌∙◌,
  arith, if◌then◌else◌, ◌==◌, select, is_some, is_empty, get_or, map_option, Option-cases, inl, inr,
}
use multi_daq.Prelude.Numbers.{has}
use multi_daq.Prelude.Dict.{Dict, find}
use multi_daq.Prelude.Bits.{test_bit}
use multi_daq.Message.Protocol.{Json, null, object, JsonMembers, no_members}
use multi_daq.Message.Handler.{dict_of}
use multi_daq.Rc.Registers.{Rc, Fits, max_register_value}
use multi_daq.Rc.Acquisition.{
  AcqReply, write_values, normalize, no_values, begin, set_parts, set_acq_registers,
  acq_register_write_order, acq_reply, is_acq_register,
}
use multi_daq.Rc.Requested.{
  wanted, rather, failures, values-normalize, failed-normalize, wanted-Allowed,
}
use multi_daq.Rc.Writes.{in_bounds, write_all}
use multi_daq.Rc.Merge.{setting_of, bit_15, done_15, failed_15, set_reg15-Merged}

wanted-15 : (d : Dict Json) → wanted d 15 ≡ none
unfolding is_acq_register
wanted-15 d = elim (Option-cases (wanted d 15)) [
  | inl e ↦ e
  | inr (v, e) ↦ absurd (ground (arith, (wanted-Allowed d 15 v e).1))
]

-- Only the registers of the write order have a value.
wanted_in_order :
    (d : Dict Json) (r : ℕ) (old : ℕ)
    → (if has r acq_register_write_order then get_or (wanted d r) old else old)
      ≡ get_or (wanted d r) old
unfolding is_acq_register has
wanted_in_order d r old = elim (Option-cases (wanted d r)) [
  | inl e ↦ ground (arith, e)
  | inr (v, e) ↦ ground (arith, e, (wanted-Allowed d r v e).1)
]

-- What is done of a configuration: the entries of `registers` and the configuration of register 15.
pub record Applied (d : Dict Json) (o : Option (Dict Json)) (s : Rc) (q : AcqReply × Rc)
    : Type 0 where
  pub registers : (r : ℕ) → (r == 15) ≡ false → q.1.regs r ≡ get_or (wanted d r) (s.regs r)
  pub bits : (i : ℕ) → test_bit i (q.1.regs 15) ≡ bit_15 (setting_of o) i (test_bit i (s.regs 15))
  pub written :
      q.0.successful_registers
      ≡ select (λ r. is_some (wanted d r)) acq_register_write_order ++ done_15 (setting_of o)
  pub refused : q.0.failed_registers ≡ failures d ++ failed_15 o
  pub complete : q.0.success ≡ is_empty (failures d ++ failed_15 o)

values_wanted : (d : Dict Json) (r : ℕ) → (normalize d no_values).values r ≡ wanted d r
values_wanted d r = values-normalize d no_values r ∙ rather-none (wanted d r)
  where
    rather-none : (o : Option ℕ) → rather o none ≡ o
    rather-none none = refl
    rather-none (some v) = refl

select-same : (f g : ℕ → Bool) (xs : List ℕ) → ((x : ℕ) → f x ≡ g x) → select f xs ≡ select g xs
unfolding select
select-same f g [] h = refl
select-same f g (x ∷ xs) h = ground (arith, h x, select-same f g xs h)

normalized_fits :
    (d : Dict Json) (r v : ℕ) → (normalize d no_values).values r ≡ some v → v ≤ max_register_value
normalized_fits d r v e = (wanted-Allowed d r v (sym (values_wanted d r) ∙ e)).0

set_parts-Applied :
    (d : Dict Json) (o : Option (Dict Json)) (s : Rc)
    → s.mapped ≡ true
    → Fits s
    → Applied d o s (acq_reply (set_parts d o s))
unfolding set_parts in_bounds
set_parts-Applied d o s f w =
    let n = normalize d no_values in
    let p = begin s n.failed in
    let q = write_all n.values (normalized_fits d) acq_register_write_order p refl f in
    let at = λ (r : ℕ).
      q.registers r
      ∙ ap (λ x. if has r acq_register_write_order then get_or x (s.regs r) else s.regs r)
          (values_wanted d r)
      ∙ wanted_in_order d r (s.regs r) in
    let old_15 = at 15 ∙ ap (λ x. get_or x (s.regs 15)) (wanted-15 d) in
    let m =
      set_reg15-Merged o (write_values n.values acq_register_write_order p) (q.mapping ∙ f)
        (ground (arith, old_15, w 15)) in
    let reported =
      m.failures_noted
      ∙ ap (λ x. x ++ failed_15 o) (q.failures_kept ∙ failed-normalize d no_values) in
    record {
      registers = λ r h. m.others r h ∙ at r;
      bits = λ i. m.bits i ∙ ap (λ x. bit_15 (setting_of o) i (test_bit i x)) old_15;
      written =
          m.succeeded
          ∙ ap (λ x. x ++ done_15 (setting_of o))
              (q.succeeded
                ∙ select-same _ _ acq_register_write_order (λ r. ap is_some (values_wanted d r)));
      refused = reported;
      complete = ap is_empty reported;
    }

-- `reg15`: null or left out, or an object.
abbrev pub optional : Option JsonMembers → Json
optional none = null
optional (some ms) = object ms

-- On registers that can be written, a configuration with an object `registers` and with `reg15` null or
-- an object is carried out: every register but 15 holds the last valid value that an entry gives it, or
-- what it held; the bits of register 15 under a valid mask are those of the value, the others are kept;
-- the reply lists as written exactly what was asked for and valid, in the write order with 15 last, and
-- as failed exactly the entries that are not valid, and reports success when there are none.
pub acq-Applied :
    (config registers : JsonMembers) (reg15 : Option JsonMembers) (s : Rc)
    → get_or (find "registers" (dict_of config)) (object no_members) ≡ object registers
    → get_or (find "reg15" (dict_of config)) null ≡ optional reg15
    → s.mapped ≡ true
    → Fits s
    → Applied (dict_of registers) (map_option dict_of reg15) s (set_acq_registers (object config) s)
unfolding set_acq_registers
acq-Applied config registers none s e f g w =
    rw (e, f) (set_parts-Applied (dict_of registers) none s g w)
acq-Applied config registers (some ms) s e f g w =
    rw (e, f) (set_parts-Applied (dict_of registers) (some (dict_of ms)) s g w)
