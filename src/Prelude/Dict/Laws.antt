-- ===== src/Prelude/Dict/Laws.antt =====
-- The laws of the dictionaries, each as an equation on what `find` returns.
use mathlib.Core.Path.{◌≡◌, refl}
use mathlib.Core.Bool.{Bool, false}
use mathlib.Core.Option.{Option, none, some}
use mathlib.Core.List.{[], ◌∷◌}
use native.Mathlib.Omega.{arith}
use Prim.Native.String.{String}
use text.Mathlib.Text.{◌==◌}
use text.Mathlib.TextEquality.{eq_iff}
use package.multi_daq.Prelude.Tests.{if◌then◌else◌}
use package.multi_daq.Prelude.Lists.{contains}
use package.multi_daq.Prelude.Dict.{Dict, find, insert, erase, update_where, modify, keys_where}

-- Whether the key is there with a value that passes the test.
abbrev pub holds {ℓ} : {V : Type ℓ} → (V → Bool) → Option V → Bool
holds p none = false
holds p (some v) = p v

abbrev pub change {ℓ} : {V : Type ℓ} → (V → V) → Option V → Option V
change f none = none
change f (some v) = some (f v)

module _ {ℓ} {V : Type ℓ} where
  -- Every key stands once.
  abbrev pub Distinct : Dict V → Type ℓ
  Distinct [] = Unit
  Distinct ((j, v) ∷ m) = (find j m ≡ none) × Distinct m

module _ {ℓ} {V : Type ℓ} (k : String) where
  pub find-insert :
      (j : String) (v : V) (m : Dict V)
      → find k (insert j v m) ≡ (if j == k then some v else find k m)
  unfolding find insert
  find-insert j v [] = refl
  find-insert j v ((i, w) ∷ m) =
      ground (arith, eq_iff j k, eq_iff i j, eq_iff i k, find-insert j v m)

  pub find-modify :
      (j : String) (f : V → V) (m : Dict V)
      → find k (modify j f m) ≡ (if j == k then change f (find k m) else find k m)
  unfolding find modify
  find-modify j f [] = ground arith
  find-modify j f ((i, w) ∷ m) =
      ground (arith, eq_iff j k, eq_iff i j, eq_iff i k, find-modify j f m)

  pub find-update_where :
      (t : String → Bool) (f : V → V) (m : Dict V)
      → find k (update_where t f m) ≡ (if t k then change f (find k m) else find k m)
  unfolding find update_where
  find-update_where t f [] = ground arith
  find-update_where t f ((i, w) ∷ m) = ground (arith, eq_iff i k, find-update_where t f m)

  pub find-erase :
      (j : String) (m : Dict V)
      → Distinct m
      → find k (erase j m) ≡ (if j == k then none else find k m)
  unfolding find erase
  find-erase j [] d = ground arith
  find-erase j ((i, w) ∷ m) d =
      ground (arith, eq_iff j k, eq_iff i j, eq_iff i k, find-erase j m d.1)

  not-contains-keys_where :
      (p : V → Bool) (m : Dict V) → find k m ≡ none → contains k (keys_where p m) ≡ false
  unfolding find keys_where contains
  not-contains-keys_where p [] h = refl
  not-contains-keys_where p ((i, w) ∷ m) h = ground (arith, eq_iff i k, not-contains-keys_where p m)

  -- The keys that a comprehension selects are those whose value passes its test.
  pub contains-keys_where :
      (p : V → Bool) (m : Dict V) → Distinct m → contains k (keys_where p m) ≡ holds p (find k m)
  unfolding find keys_where contains
  contains-keys_where p [] d = refl
  contains-keys_where p ((i, w) ∷ m) d =
      ground (arith, eq_iff i k, contains-keys_where p m d.1, not-contains-keys_where p m)

module _ {ℓ} {V : Type ℓ} where
  pub insert-Distinct : (k : String) (v : V) (m : Dict V) → Distinct m → Distinct (insert k v m)
  unfolding insert find
  insert-Distinct k v [] d = (refl, tt)
  insert-Distinct k v ((i, w) ∷ m) d =
      ground (arith, eq_iff i k, eq_iff k i, insert-Distinct k v m d.1, find-insert i k v m)

  pub modify-Distinct : (k : String) (f : V → V) (m : Dict V) → Distinct m → Distinct (modify k f m)
  unfolding modify
  modify-Distinct k f [] d = tt
  modify-Distinct k f ((i, w) ∷ m) d =
      ground (arith, eq_iff i k, modify-Distinct k f m d.1, find-modify i k f m)

  pub update_where-Distinct :
      (t : String → Bool) (f : V → V) (m : Dict V) → Distinct m → Distinct (update_where t f m)
  unfolding update_where
  update_where-Distinct t f [] d = tt
  update_where-Distinct t f ((i, w) ∷ m) d =
      ground (arith, update_where-Distinct t f m d.1, find-update_where i t f m)

  pub erase-Distinct : (k : String) (m : Dict V) → Distinct m → Distinct (erase k m)
  unfolding erase
  erase-Distinct k [] d = tt
  erase-Distinct k ((i, w) ∷ m) d =
      ground (arith, eq_iff i k, erase-Distinct k m d.1, find-erase i k m d.1)
