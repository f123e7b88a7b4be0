-- ===== src/Prelude/Dict.antt =====
-- Python dictionaries with text keys, in insertion order.
pub mod Laws
use Prim.Native.String.{String}
use mathlib.Core.Bool.{Bool, false, ◌||◌}
use mathlib.Core.Option.{Option, none, some}
use mathlib.Core.List.{List, [], ◌∷◌}
use text.Mathlib.Text.{◌==◌}
use package.multi_daq.Prelude.Tests.{if◌then◌else◌}

abbrev pub Dict {ℓ} : Type ℓ → Type ℓ
Dict V = List (String × V)

module _ {ℓ} {V : Type ℓ} where
  unfoldable pub find : String → Dict V → Option V
  find k [] = none
  find k ((j, v) ∷ m) = if j == k then some v else find k m

  -- `d[k] = v`: in place for a known key, else at the end.
  unfoldable pub insert : String → V → Dict V → Dict V
  insert k v [] = (k, v) ∷ []
  insert k v ((j, w) ∷ m) = if j == k then (j, v) ∷ m else (j, w) ∷ insert k v m

  -- `d.pop(k, None)`; keys are unique.
  unfoldable pub erase : String → Dict V → Dict V
  erase k [] = []
  erase k ((j, w) ∷ m) = if j == k then m else (j, w) ∷ erase k m

  -- Change every value whose key passes the test: a loop over the items of the dictionary.
  unfoldable pub update_where : (String → Bool) → (V → V) → Dict V → Dict V
  update_where t f [] = []
  update_where t f ((j, w) ∷ m) = (j, if t j then f w else w) ∷ update_where t f m

  -- Change the value of one key, if it is there.
  unfoldable pub modify : String → (V → V) → Dict V → Dict V
  modify k f [] = []
  modify k f ((j, w) ∷ m) = if j == k then (j, f w) ∷ m else (j, w) ∷ modify k f m

  -- `[k for k, v in d.items() if p(v)]`.
  unfoldable pub keys_where : (V → Bool) → Dict V → List String
  keys_where p [] = []
  keys_where p ((j, w) ∷ m) = let rest = keys_where p m in if p w then j ∷ rest else rest

  unfoldable pub any_value : (V → Bool) → Dict V → Bool
  any_value p [] = false
  any_value p ((j, w) ∷ m) = p w || any_value p m
