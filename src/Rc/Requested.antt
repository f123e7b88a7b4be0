-- ===== src/Rc/Requested.antt =====
-- What a configuration of registers asks for, and the loop that normalizes it
-- (`set_acq_registers`, client/hardware/rc/rc_interface.py).
use multi_daq.Prelude.{
  true, Option, none, some, ℕ, ◌≤◌, String, List, [], ◌∷◌, ◌++◌, ◌≡◌, refl, sym, arith, ==_iff,
  if◌then◌else◌, ◌==◌, Bool-cases, inl, inr,
}
use multi_daq.Prelude.Dict.{Dict}
use multi_daq.Prelude.Int.{ℤ, pos, negsuc, int_of_literal}
use multi_daq.Message.Protocol.{Json}
use multi_daq.Rc.Registers.{max_register_value}
use multi_daq.Rc.Acquisition.{
  Name, Entry, write_entry, failed_entry, entry, entry_at, entry_value, unsigned_32, python_int,
  is_acq_register, Normalized, note_entry, normalize,
}
use mathlib.Core.Path.{subst}
use mathlib.Core.List.{append-nil, append_assoc}

-- The value that an entry gives to register `r`.
abbrev pub value_for : ℕ → Entry → Option ℕ
value_for r (write_entry a v) = if r == a then some v else none
value_for r (failed_entry f) = none

abbrev pub rather : Option ℕ → Option ℕ → Option ℕ
rather none o = o
rather (some v) o = some v

-- The value of the last valid entry for register `r`.
unfoldable pub wanted : Dict Json → ℕ → Option ℕ
wanted [] r = none
wanted ((k, v) ∷ d) r = rather (wanted d r) (value_for r (entry k v))

abbrev pub failure : Entry → List Name
failure (write_entry a v) = []
failure (failed_entry f) = f ∷ []

-- The entries that are not valid.
unfoldable pub failures : Dict Json → List Name
failures [] = []
failures ((k, v) ∷ d) = failure (entry k v) ++ failures d

rather_assoc : (a b c : Option ℕ) → rather a (rather b c) ≡ rather (rather a b) c
rather_assoc none b c = refl
rather_assoc (some a) b c = refl

values-note_entry :
    (e : Entry) (n : Normalized) (r : ℕ)
    → (note_entry e n).values r ≡ rather (value_for r e) (n.values r)
values-note_entry (write_entry a v) n r = ground arith
values-note_entry (failed_entry f) n r = refl

pub values-normalize :
    (d : Dict Json) (n : Normalized) (r : ℕ)
    → (normalize d n).values r ≡ rather (wanted d r) (n.values r)
unfolding normalize wanted
values-normalize [] n r = refl
values-normalize ((k, v) ∷ d) n r = ground (
  arith,
  values-normalize d (note_entry (entry k v) n) r,
  values-note_entry (entry k v) n r,
  rather_assoc (wanted d r) (value_for r (entry k v)) (n.values r),
)

failed-note_entry : (e : Entry) (n : Normalized) → (note_entry e n).failed ≡ n.failed ++ failure e
failed-note_entry (write_entry a v) n = sym (append-nil n.failed)
failed-note_entry (failed_entry f) n = refl

pub failed-normalize :
    (d : Dict Json) (n : Normalized) → (normalize d n).failed ≡ n.failed ++ failures d
unfolding normalize failures
failed-normalize [] n = sym (append-nil n.failed)
failed-normalize ((k, v) ∷ d) n = ground (
  arith,
  failed-normalize d (note_entry (entry k v) n),
  failed-note_entry (entry k v) n,
  append_assoc n.failed (failure (entry k v)) (failures d),
)

-- Only registers of the acquisition are written, with 32 bits.
abbrev pub Allowed : ℕ → Option ℕ → Type 0
Allowed r o = (v : ℕ) → o ≡ some v → (v ≤ max_register_value) × (is_acq_register r ≡ true)

Allowed-rather : (r : ℕ) (a b : Option ℕ) → Allowed r a → Allowed r b → Allowed r (rather a b)
Allowed-rather r none b f g = g
Allowed-rather r (some a) b f g = f

Allowed-value_for : (r : ℕ) (k : String) (j : Json) → Allowed r (value_for r (entry k j))
unfolding entry
Allowed-value_for r k j = by_address (int_of_literal k)
  where
    by_number :
        (a : ℕ) (o : Option ℤ)
        → is_acq_register a ≡ true
        → Allowed r (value_for r (entry_value a (unsigned_32 o)))
    by_number a none h v e = ground arith
    by_number a (some (negsuc n)) h v e = ground arith
    by_number a (some (pos n)) h v e = elim (Bool-cases (r == a)) [
      | inl same ↦ (
        ground (arith, e, same),
        subst (λ c. is_acq_register c ≡ true) (sym ((==_iff r a).0 same)) h,
      )
      | inr other ↦ absurd (ground (arith, e, other))
    ]

    by_address : (o : Option ℤ) → Allowed r (value_for r (entry_at k o j))
    by_address none v e = ground arith
    by_address (some (negsuc a)) v e = ground arith
    by_address (some (pos a)) v e = elim (Bool-cases (is_acq_register a)) [
      | inl h ↦ by_number a (python_int j) h v (ground arith)
      | inr h ↦ ground arith
    ]

pub wanted-Allowed : (d : Dict Json) (r : ℕ) → Allowed r (wanted d r)
unfolding wanted
wanted-Allowed [] r = λ v e. ground arith
wanted-Allowed ((k, v) ∷ d) r =
    Allowed-rather r (wanted d r) (value_for r (entry k v)) (wanted-Allowed d r)
      (Allowed-value_for r k v)
