-- ===== src/MacRegistry/Tests.antt =====
-- Registrations, and the theorem about them at a concrete input.
use multi_daq.Prelude.{
  Bool, ℕ, eq_iff, ◌⊎◌, inl, inr, sym, ◌∙◌, str_eq, true, false, none, some, String, List, [], ◌∷◌,
  ◌≡◌, refl, arith,
}
use multi_daq.Prelude.Dict.{Dict, find, insert}
use multi_daq.MacRegistry.Registry.{
  Registry, new_registry, inverted, note_id, register, add_client_mac, get_mac_from_id,
}
use multi_daq.MacRegistry.Ids.{IsNumbered, add_all, all_real, ids_unique}

-- The second registration cannot be saved; the third finds the address.
abbrev registrations : List (Bool × String)
registrations = (true, "00:aa") ∷ (false, "00:bb") ∷ (true, "00:aa") ∷ []

-- To unfold this is to unfold all that the functions compute with.
registered : Registry
unfolding add_all all_real add_client_mac register note_id find insert inverted get_mac_from_id
registered = add_all none registrations new_registry

registered_ids : registered.present ≡ some (("00:aa", 0) ∷ ("index", 1) ∷ ("00:bb", 1) ∷ [])
unfolding registered
registered_ids = refl

-- The file of an earlier run.
abbrev saved : Dict ℕ
saved = ("00:cc", 0) ∷ ("index", 1) ∷ ("00:dd", 1) ∷ []

saved_entry :
    (a : String) (n : ℕ)
    → str_eq a "index" ≡ false
    → find a saved ≡ some n
    → (("00:cc" ≡ a) × (n ≡ 0)) ⊎ (("00:dd" ≡ a) × (n ≡ 1))
unfolding find
saved_entry a n real e =
    ground (arith, eq_iff "00:cc" a, eq_iff "00:dd" a, eq_iff "index" a, eq_iff a "index")

saved-IsNumbered : IsNumbered saved
unfolding find
saved-IsNumbered = record {
  keys = (refl, (refl, (refl, tt)));
  counted = λ mac n real e. ground arith;
  single = λ a b n i j e f. same_entry (saved_entry a n i e) (saved_entry b n j f);
}
  where
    same_entry :
        {a b : String} {n : ℕ}
        → (("00:cc" ≡ a) × (n ≡ 0)) ⊎ (("00:dd" ≡ a) × (n ≡ 1))
        → (("00:cc" ≡ b) × (n ≡ 0)) ⊎ (("00:dd" ≡ b) × (n ≡ 1))
        → a ≡ b
    same_entry (inl x) (inl y) = sym x.0 ∙ y.0
    same_entry (inr x) (inr y) = sym x.0 ∙ y.0
    same_entry (inl x) (inr y) = ground (arith, x.1, y.1)
    same_entry (inr x) (inl y) = ground (arith, x.1, y.1)

ids_unique_example :
    (◌≡◌ {A = String} "00:bb" "00:bb")
    × ((get_mac_from_id (some saved) 3 (add_all (some saved) registrations new_registry)).1
        ≡ some "00:bb")
unfolding registered
ids_unique_example =
    ids_unique (some saved) registrations "00:bb" "00:bb" 3 saved-IsNumbered refl refl refl refl
      refl
