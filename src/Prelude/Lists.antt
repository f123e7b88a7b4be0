-- ===== src/Prelude/Lists.antt =====
-- Lists measured by native numbers, Boolean membership and Python's `dict.fromkeys` on texts.
use Prim.Native.Nat.{ℕ, suc}
use Prim.Native.String.{String}
use mathlib.Core.Path.{◌≡◌, refl}
use mathlib.Core.Bool.{Bool, true, false, not, ◌&&◌, ◌||◌}
use mathlib.Core.List.{List, [], ◌∷◌, ◌++◌}
use native.Mathlib.Omega.{arith}
use text.Mathlib.Text.{◌==◌}
use text.Mathlib.TextEquality.{eq_iff}
use package.multi_daq.Prelude.Tests.{if◌then◌else◌, Bool-cases}

module _ {ℓ} {A : Type ℓ} where
  abbrev pub length : List A → ℕ
  length [] = 0
  length (x ∷ xs) = suc (length xs)

  -- The elements that pass a Boolean test, in order: `[x for x in xs if p(x)]`.
  unfoldable pub select : (A → Bool) → List A → List A
  select p [] = []
  select p (x ∷ xs) = let rest = select p xs in if p x then x ∷ rest else rest

  unfoldable pub is_empty : List A → Bool
  is_empty [] = true
  is_empty (x ∷ xs) = false

-- `x in xs` for texts.
unfoldable pub contains : String → List String → Bool
contains x [] = false
contains x (y ∷ ys) = y == x || contains x ys

-- `set(xs) <= set(ys)`.
unfoldable pub all_in : List String → List String → Bool
all_in [] ys = true
all_in (x ∷ xs) ys = contains x ys && all_in xs ys

-- `set(xs) == set(ys)`.
unfoldable pub same_set : List String → List String → Bool
unfolding all_in
same_set xs ys = all_in xs ys && all_in ys xs

-- `bool(set(xs) & set(ys))`.
unfoldable pub overlaps : List String → List String → Bool
overlaps [] ys = false
overlaps (x ∷ xs) ys = contains x ys || overlaps xs ys

-- `list(dict.fromkeys(xs))`: the first occurrence of each text, in order.
unfoldable pub dedup : List String → List String
dedup [] = []
dedup (x ∷ xs) = x ∷ select (λ y. not (y == x)) (dedup xs)

pub contains-all_in :
    (x : String) (xs ys : List String)
    → all_in xs ys ≡ true
    → contains x xs ≡ true
    → contains x ys ≡ true
unfolding contains all_in
contains-all_in x [] ys h c = cc
contains-all_in x (z ∷ xs) ys h c = ground (arith, eq_iff z x, contains-all_in x xs ys)

contains-select_ne :
    (x y : String) (xs : List String)
    → contains x (select (λ z. not (z == y)) xs) ≡ (not (y == x) && contains x xs)
unfolding contains select
contains-select_ne x y [] = ground arith
contains-select_ne x y (z ∷ xs) =
    ground (arith, eq_iff z x, eq_iff z y, eq_iff y x, contains-select_ne x y xs)

-- Dropping repetitions keeps the set of elements.
pub contains-dedup : (x : String) (xs : List String) → contains x (dedup xs) ≡ contains x xs
unfolding contains dedup
contains-dedup x [] = refl
contains-dedup x (y ∷ xs) =
    ground (arith, contains-select_ne x y (dedup xs), contains-dedup x xs, eq_iff y x)

pub contains-append :
    (x : String) (xs ys : List String) → contains x (xs ++ ys) ≡ (contains x xs || contains x ys)
unfolding contains
contains-append x [] ys = refl
contains-append x (z ∷ xs) ys = ground (arith, contains-append x xs ys)

-- Lists that are equal as sets have the same elements.
pub contains-same_set :
    (x : String) (xs ys : List String) → same_set xs ys ≡ true → contains x xs ≡ contains x ys
unfolding same_set
contains-same_set x xs ys h =
    ground (arith, contains-all_in x xs ys, contains-all_in x ys xs, Bool-cases (contains x xs))

pub not-contains-overlaps :
    (x : String) (xs ys : List String)
    → overlaps xs ys ≡ false
    → contains x xs ≡ true
    → contains x ys ≡ false
unfolding overlaps contains
not-contains-overlaps x [] ys h c = cc
not-contains-overlaps x (z ∷ xs) ys h c = ground (arith, eq_iff z x, not-contains-overlaps x xs ys)

pub contains_head : (x : String) (xs : List String) → contains x (x ∷ xs) ≡ true
unfolding contains
contains_head x xs = ground (arith, eq_iff x x)
