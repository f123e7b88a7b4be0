-- ===== src/Rc/Writes.antt =====
-- The loop of `set_acq_registers` that writes the registers in order
-- (client/hardware/rc/rc_interface.py).
use multi_daq.Prelude.{
  Bool, true, ◌&&◌, Option, none, some, ℕ, ◌≤◌, List, [], ◌∷◌, ◌++◌, ◌≡◌, refl, sym, ◌∙◌, arith,
  if◌then◌else◌, ◌==◌, ==_iff, leb, select, is_some, get_or, Option-cases, inl, inr,
}
use multi_daq.Prelude.Numbers.{has}
use multi_daq.Rc.Registers.{max_regs, max_register_value, check_reg_boundary, write}
use multi_daq.Rc.Acquisition.{Progress, write_value, write_values}
use mathlib.Core.Path.{subst}
use mathlib.Core.List.{append-nil, append_assoc}

-- The addresses of a list are in bounds.
unfoldable pub in_bounds : List ℕ → Bool
in_bounds [] = true
in_bounds (a ∷ rest) = leb a max_regs && in_bounds rest

-- The writes of a list of registers, when none fails.
pub record Written (values : ℕ → Option ℕ) (order : List ℕ) (p q : Progress) : Type 0 where
  pub mapping : q.rc.mapped ≡ p.rc.mapped
  pub registers :
      (r : ℕ) → q.rc.regs r ≡ (if has r order then get_or (values r) (p.rc.regs r) else p.rc.regs r)
  pub succeeded : q.successful ≡ p.successful ++ select (λ a. is_some (values a)) order
  pub failures_kept : q.failed ≡ p.failed

module _ (values : ℕ → Option ℕ)
    (fits : (r v : ℕ) → values r ≡ some v → v ≤ max_register_value) where
  -- A register that has a value.
  known : (a r : ℕ) (o : Option ℕ) → values a ≡ o → (a == r) ≡ true → values r ≡ o
  known a r o e h = subst (λ c. values c ≡ o) ((==_iff a r).0 h) e

  write_one :
      (a : ℕ) (p : Progress)
      → a ≤ max_regs
      → p.rc.mapped ≡ true
      → Written values (a ∷ []) p (write_value a (values a) p)
  unfolding write check_reg_boundary has select
  write_one a p h f = elim (Option-cases (values a)) [
    | inl e ↦ record {
      mapping = ground (arith, e);
      registers = λ r. ground (arith, e, known a r none e);
      succeeded = ground (arith, e, append-nil p.successful);
      failures_kept = ground (arith, e);
    }
    | inr (v, e) ↦ record {
      mapping = ground (arith, e, fits a v e);
      registers = λ r. ground (arith, e, fits a v e, known a r (some v) e);
      succeeded = ground (arith, e, fits a v e);
      failures_kept = ground (arith, e, fits a v e);
    }
  ]

  pub write_all :
      (order : List ℕ) (p : Progress)
      → in_bounds order ≡ true
      → p.rc.mapped ≡ true
      → Written values order p (write_values values order p)
  unfolding write_values in_bounds has select
  write_all [] p b f = record {
    mapping = refl;
    registers = λ r. refl;
    succeeded = sym (append-nil p.successful);
    failures_kept = refl;
  }
  write_all (a ∷ rest) p b f =
      let one = write_one a p (ground arith) f in
      let more = write_all rest (write_value a (values a) p) (ground arith) (one.mapping ∙ f) in
      record {
        mapping = more.mapping ∙ one.mapping;
        registers = λ r. ground (arith, more.registers r, one.registers r, again r);
        succeeded = ground (
          arith,
          more.succeeded,
          one.succeeded,
          append_assoc p.successful (select (λ c. is_some (values c)) (a ∷ []))
              (select (λ c. is_some (values c)) rest),
        );
        failures_kept = more.failures_kept ∙ one.failures_kept;
      }
    where
      again :
          (r : ℕ)
          → get_or (values r) (get_or (values r) (p.rc.regs r)) ≡ get_or (values r) (p.rc.regs r)
      again r = elim (Option-cases (values r)) [ inl e ↦ rw e refl | inr (v, e) ↦ rw e refl ]
