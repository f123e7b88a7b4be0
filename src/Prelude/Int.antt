-- ===== src/Prelude/Int.antt =====
-- Python's integers, and `int(text)`.
use Prim.Native.Nat.{ℕ, ◌+◌, ◌-◌, ◌*◌}
use Prim.Native.Char.{code}
use Prim.Native.String.{String}
use mathlib.Core.Bool.{Bool, true, false, not, ◌&&◌, ◌||◌}
use mathlib.Core.Option.{Option, none, some}
use mathlib.Core.List.{List, [], ◌∷◌}
use package.multi_daq.Prelude.Tests.{leb, ◌==◌, if◌then◌else◌}
use package.multi_daq.Prelude.Text.{codes, strip}

-- `negsuc n` is -(n + 1).
pub data ℤ : Type 0 where
  pos : ℕ → ℤ
  negsuc : ℕ → ℤ

abbrev pub minus_ℕ : ℕ → ℤ
minus_ℕ n = if n == 0 then pos 0 else negsuc (n - 1)

pub data Token : Type 0 where
  digit : ℕ → Token
  underscore other : Token

abbrev token : ℕ → Token
token c = if leb 48 c && leb c 57 then digit (c - 48) else if c == 95 then underscore else other

-- The digits of a number, with single underscores between them; the flag says that a digit came last.
pub digits_value : ℕ → Bool → List ℕ → Option ℕ
digits_value acc after_digit [] = if after_digit then some acc else none
digits_value acc after_digit (c ∷ cs) = elim (token c) [
  | digit d ↦ digits_value (acc * 10 + d) true cs
  | underscore ↦ elim after_digit [ true ↦ digits_value acc false cs | false ↦ none ]
  | other ↦ none
]

abbrev signed : (ℕ → ℤ) → Option ℕ → Option ℤ
signed f none = none
signed f (some n) = some (f n)

pub signed_value : List ℕ → Option ℤ
unfolding digits_value
signed_value [] = none
signed_value (c ∷ cs) =
    if c == 45
    then signed minus_ℕ (digits_value 0 false cs)
    else if c == 43
    then signed pos (digits_value 0 false cs)
    else signed pos (digits_value 0 false (c ∷ cs))

-- `int(text)`; `none` is ValueError.
unfoldable pub int_of_text : String → Option ℤ
unfolding signed_value strip
int_of_text s = signed_value (codes (strip s))

-- `text.split(",")`
unfoldable pub split_commas : String → List String
split_commas String.[] = "" ∷ []
split_commas (String.◌∷◌ c s) =
    let parts = split_commas s in
    if code c == 44 then "" ∷ parts else elim parts [ [] ↦ [] | p ∷ ps ↦ String.◌∷◌ c p ∷ ps ]

-- A list comprehension whose body may raise an exception.
unfoldable pub each {ℓ κ} : {A : Type ℓ} {B : Type κ} → (A → Option B) → List A → Option (List B)
each f [] = some []
each f (x ∷ xs) = elim (f x) [
  | none ↦ none
  | some y ↦ elim (each f xs) [ none ↦ none | some ys ↦ some (y ∷ ys) ]
]

-- The value of a digit or a letter.
abbrev digit_of : ℕ → Option ℕ
digit_of c =
    if leb 48 c && leb c 57
    then some (c - 48)
    else if leb 97 c && leb c 122
    then some (c - 87)
    else if leb 65 c && leb c 90
    then some (c - 55)
    else none

abbrev below : ℕ → Option ℕ → Token
below base none = other
below base (some d) = if leb (d + 1) base then digit d else other

abbrev token_in : ℕ → ℕ → Token
token_in base c = if c == 95 then underscore else below base (digit_of c)

-- As `digits_value`, in any base.
pub based_value : ℕ → ℕ → Bool → List ℕ → Option ℕ
based_value base acc after_digit [] = if after_digit then some acc else none
based_value base acc after_digit (c ∷ cs) = elim (token_in base c) [
  | digit d ↦ based_value base (acc * base + d) true cs
  | underscore ↦ elim after_digit [ true ↦ based_value base acc false cs | false ↦ none ]
  | other ↦ none
]

-- The base that the second character of `0x`, `0o`, `0b` stands for; 0 for any other.
abbrev base_named : ℕ → ℕ
base_named c =
    if c == 120 || c == 88
    then 16
    else if c == 111 || c == 79
    then 8
    else if c == 98 || c == 66
    then 2
    else 0

-- A decimal number that starts with 0 is 0.
abbrev no_leading_zero : ℕ → Option ℕ → Option ℕ
no_leading_zero c none = none
no_leading_zero c (some n) = if c == 48 && not (n == 0) then none else some n

-- After the sign; an underscore may follow the prefix.
pub literal_digits : List ℕ → Option ℕ
unfolding digits_value based_value
literal_digits [] = none
literal_digits (c ∷ []) = digits_value 0 false (c ∷ [])
literal_digits (c ∷ p ∷ []) =
    if c == 48 && leb 1 (base_named p)
    then none
    else no_leading_zero c (digits_value 0 false (c ∷ p ∷ []))
literal_digits (c ∷ p ∷ d ∷ ds) =
    if c == 48 && leb 1 (base_named p)
    then based_value (base_named p) 0 true (d ∷ ds)
    else no_leading_zero c (digits_value 0 false (c ∷ p ∷ d ∷ ds))

pub literal_value : List ℕ → Option ℤ
unfolding literal_digits
literal_value [] = none
literal_value (c ∷ cs) =
    if c == 45
    then signed minus_ℕ (literal_digits cs)
    else if c == 43
    then signed pos (literal_digits cs)
    else signed pos (literal_digits (c ∷ cs))

-- `int(text, 0)`; `none` is ValueError.
unfoldable pub int_of_literal : String → Option ℤ
unfolding literal_value strip
int_of_literal s = literal_value (codes (strip s))
