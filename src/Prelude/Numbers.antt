-- ===== src/Prelude/Numbers.antt =====
-- Python lists of numbers: `in`, `remove`, `append`, `sorted` and sets. What a list holds is read
-- off `count`, which every operation changes in a way that arithmetic can follow.
use Prim.Native.Nat.{ℕ, suc, ◌+◌, ◌-◌}
use mathlib.Core.Path.{◌≡◌, refl}
use mathlib.Core.Bool.{Bool, true, false, not, ◌||◌, ◌&&◌}
use mathlib.Core.List.{List, [], ◌∷◌, ◌++◌}
use native.Mathlib.Omega.{arith}
use package.multi_daq.Prelude.Tests.{leb, ◌==◌, if◌then◌else◌}
use package.multi_daq.Prelude.Lists.{select}

-- How often `x` stands in a list.
unfoldable pub count : ℕ → List ℕ → ℕ
count x [] = 0
count x (y ∷ ys) = let rest = count x ys in if y == x then suc rest else rest

-- `x in xs`
unfoldable pub has : ℕ → List ℕ → Bool
has x [] = false
has x (y ∷ ys) = y == x || has x ys

-- `xs.remove(x)`: the first occurrence goes.
unfoldable pub remove : ℕ → List ℕ → List ℕ
remove x [] = []
remove x (y ∷ ys) = let rest = remove x ys in if y == x then ys else y ∷ rest

-- `if x in xs: xs.remove(x)`
unfoldable pub discard : ℕ → List ℕ → List ℕ
discard x xs = if has x xs then remove x xs else xs

-- `if x not in xs: xs.append(x)`
unfoldable pub include : ℕ → List ℕ → List ℕ
include x xs = if has x xs then xs else xs ++ x ∷ []

unfoldable pub insert_sorted : ℕ → List ℕ → List ℕ
insert_sorted x [] = x ∷ []
insert_sorted x (y ∷ ys) = let rest = insert_sorted x ys in if leb x y then x ∷ y ∷ ys else y ∷ rest

unfoldable pub sorted : List ℕ → List ℕ
unfolding insert_sorted
sorted [] = []
sorted (x ∷ xs) = insert_sorted x (sorted xs)

-- `set(xs)`, as a list of its elements.
unfoldable pub set_of : List ℕ → List ℕ
unfolding include
set_of [] = []
set_of (x ∷ xs) = include x (set_of xs)

-- `set(xs) - set(ys)`
unfoldable pub minus : List ℕ → List ℕ → List ℕ
unfolding set_of
minus xs ys = select (λ x. not (has x ys)) (set_of xs)

abbrev pub bit : Bool → ℕ
bit true = 1
bit false = 0

module _ (x : ℕ) where
  -- `ground` reads a Boolean test of membership as a count.
  pub has-count : (xs : List ℕ) → has x xs ≡ leb 1 (count x xs)
  unfolding has count
  has-count [] = refl
  has-count (y ∷ ys) = ground (arith, has-count ys)

  pub count-append : (xs ys : List ℕ) → count x (xs ++ ys) ≡ count x xs + count x ys
  unfolding count
  count-append [] ys = ground arith
  count-append (z ∷ xs) ys = ground (arith, count-append xs ys)

  pub has-append : (xs ys : List ℕ) → has x (xs ++ ys) ≡ (has x xs || has x ys)
  unfolding has
  has-append [] ys = refl
  has-append (z ∷ xs) ys = ground (arith, has-append xs ys)

  pub count-remove : (y : ℕ) (xs : List ℕ) → count x (remove y xs) ≡ count x xs - bit (y == x)
  unfolding count remove
  count-remove y [] = ground arith
  count-remove y (z ∷ xs) = ground (arith, count-remove y xs)

  pub count-discard : (y : ℕ) (xs : List ℕ) → count x (discard y xs) ≡ count x xs - bit (y == x)
  unfolding discard
  count-discard y xs = ground (arith, has-count xs, count-remove y xs)

  pub count-include :
      (y : ℕ) (xs : List ℕ)
      → count x (include y xs) ≡ (if (y == x) && not (has x xs) then 1 else count x xs)
  unfolding include count
  count-include y xs = ground (arith, has-count xs, count-append xs (y ∷ []))

  count-insert_sorted :
      (y : ℕ) (xs : List ℕ) → count x (insert_sorted y xs) ≡ bit (y == x) + count x xs
  unfolding count insert_sorted
  count-insert_sorted y [] = ground arith
  count-insert_sorted y (z ∷ xs) = ground (arith, count-insert_sorted y xs)

  pub count-sorted : (xs : List ℕ) → count x (sorted xs) ≡ count x xs
  unfolding count sorted
  count-sorted [] = refl
  count-sorted (y ∷ xs) = ground (arith, count-insert_sorted y (sorted xs), count-sorted xs)

  pub count-select :
      (p : ℕ → Bool) (xs : List ℕ) → count x (select p xs) ≡ (if p x then count x xs else 0)
  unfolding count select
  count-select p [] = ground arith
  count-select p (y ∷ xs) = ground (arith, count-select p xs)

  pub count-set_of : (xs : List ℕ) → count x (set_of xs) ≡ bit (has x xs)
  unfolding set_of has count
  count-set_of [] = refl
  count-set_of (y ∷ xs) =
      ground (arith, count-include y (set_of xs), has-count (set_of xs), count-set_of xs)

  pub count-minus : (xs ys : List ℕ) → count x (minus xs ys) ≡ bit (has x xs && not (has x ys))
  unfolding minus
  count-minus xs ys =
      ground (arith, count-select (λ z. not (has z ys)) (set_of xs), count-set_of xs)

-- Each number is at most the next.
unfoldable pub is_sorted : List ℕ → Bool
is_sorted [] = true
is_sorted (x ∷ []) = true
is_sorted (x ∷ y ∷ ys) = leb x y && is_sorted (y ∷ ys)

insert_sorted-is_sorted :
    (x : ℕ) (xs : List ℕ) → is_sorted xs ≡ true → is_sorted (insert_sorted x xs) ≡ true
unfolding is_sorted insert_sorted
insert_sorted-is_sorted x [] s = refl
insert_sorted-is_sorted x (y ∷ []) s = ground arith
insert_sorted-is_sorted x (y ∷ z ∷ ys) s = ground (arith, insert_sorted-is_sorted x (z ∷ ys))

pub is_sorted-sorted : (xs : List ℕ) → is_sorted (sorted xs) ≡ true
unfolding is_sorted sorted
is_sorted-sorted [] = refl
is_sorted-sorted (x ∷ xs) = insert_sorted-is_sorted x (sorted xs) (is_sorted-sorted xs)
