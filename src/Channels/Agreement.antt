-- ===== src/Channels/Agreement.antt =====
-- Server, client and hardware agree on the channels of a command (server/utils/channels.py,
-- client/utils/channels.py, client/hardware/hv/hv_interface.py).
use multi_daq.Prelude.{
  Bool, true, false, not, some, ℕ, zero, suc, ◌+◌, ◌≤◌, List, [], ◌∷◌, map, ◌&&◌, ◌≡◌, refl, arith,
  if◌then◌else◌, ltb, select, ◌==◌, Option-cases, inl, inr, ◌||◌,
}
use multi_daq.Prelude.Numbers.{count, has}
use multi_daq.Prelude.Text.{lower_is}
use multi_daq.Prelude.Int.{ℤ, pos, negsuc, each}
use multi_daq.Channels.Definitions.{
  Value, integer, sequence, ChannelsArg, Canonical, every, listed, range_from, within, unique,
  normalize_user_channels, listed_values, channels_definition, hv_channels_definition,
  hv_to_user_channels, user_to_hv_channels, wire, loose_integer, requested_values,
}

-- Every channel is below `n`.
unfoldable pub all_below : ℕ → List ℕ → Bool
all_below n [] = true
all_below n (c ∷ cs) = ltb c n && all_below n cs

-- The channels that the user means.
abbrev pub meant : Canonical → ℕ → List ℕ
meant every n = range_from 0 n
meant (listed chs) n = chs

pub each-within-all_below :
    (n : ℕ) (vs : List ℤ) (chs : List ℕ) → each (within 0 n) vs ≡ some chs → all_below n chs ≡ true
unfolding each within all_below
each-within-all_below n [] chs e = ground arith
each-within-all_below n (negsuc v ∷ vs) chs e = ground arith
each-within-all_below n (pos v ∷ vs) [] e = refl
each-within-all_below n (pos v ∷ vs) (c ∷ chs) e = elim (Option-cases (each (within 0 n) vs)) [
  | inl h ↦ ground arith
  | inr (rest, h) ↦ ground (arith, each-within-all_below n vs rest h)
]

select-all_below :
    (n : ℕ) (p : ℕ → Bool) (chs : List ℕ)
    → all_below n chs ≡ true
    → all_below n (select p chs) ≡ true
unfolding select all_below
select-all_below n p [] b = refl
select-all_below n p (c ∷ chs) b = ground (arith, select-all_below n p chs)

unique-all_below : (n : ℕ) (chs : List ℕ) → all_below n chs ≡ true → all_below n (unique chs) ≡ true
unfolding unique all_below
unique-all_below n [] b = refl
unique-all_below n (c ∷ chs) b =
    ground (arith, unique-all_below n chs, select-all_below n (λ w. not (w == c)) (unique chs))

range-all_below : (n k m : ℕ) → k + m ≤ n → all_below n (range_from k m) ≡ true
unfolding range_from all_below
range-all_below n k zero b = refl
range-all_below n k (suc m) b = ground (arith, range-all_below n (suc k) m)

count-select_ne :
    (c x : ℕ) (chs : List ℕ)
    → count c (select (λ w. not (w == x)) chs) ≡ (if c == x then 0 else count c chs)
unfolding select count
count-select_ne c x [] = ground arith
count-select_ne c x (y ∷ chs) = ground (arith, count-select_ne c x chs)

count-unique : (c : ℕ) (chs : List ℕ) → count c (unique chs) ≡ (if has c chs then 1 else 0)
unfolding unique count has
count-unique c [] = ground arith
count-unique c (x ∷ chs) = ground (arith, count-select_ne c x (unique chs), count-unique c chs)

abbrev pub integers : List ℕ → List Value
integers chs = map (λ ch. integer (pos ch)) chs

pub each-loose_integer : (chs : List ℕ) → each loose_integer (integers chs) ≡ some (map pos chs)
unfolding each
each-loose_integer [] = refl
each-loose_integer (c ∷ chs) = ground (arith, each-loose_integer chs)

each-within :
    (n : ℕ) (chs : List ℕ) → all_below n chs ≡ true → each (within 0 n) (map pos chs) ≡ some chs
unfolding each within all_below
each-within n [] b = refl
each-within n (c ∷ chs) b = ground (arith, each-within n chs)

each-within_hv :
    (n : ℕ) (chs : List ℕ)
    → all_below n chs ≡ true
    → each (within 1 (suc n)) (map pos (map suc chs)) ≡ some (map suc chs)
unfolding each within all_below
each-within_hv n [] b = refl
each-within_hv n (c ∷ chs) b = ground (arith, each-within_hv n chs)

map-plus_one : (chs : List ℕ) → map (λ ch. ch + 1) chs ≡ map suc chs
map-plus_one [] = refl
map-plus_one (c ∷ chs) = ground (arith, map-plus_one chs)

-- The hardware's numbers of channels come back as the user's.
pub hv_to_user-user_to_hv :
    (chs : List ℕ) → hv_to_user_channels (user_to_hv_channels chs) ≡ map pos chs
unfolding hv_to_user_channels user_to_hv_channels
hv_to_user-user_to_hv [] = refl
hv_to_user-user_to_hv (c ∷ chs) = ground (arith, hv_to_user-user_to_hv chs)

accepted-all_below :
    (a : ChannelsArg) (n : ℕ) (w : Canonical)
    → normalize_user_channels a n ≡ some w
    → all_below n (meant w n) ≡ true
unfolding normalize_user_channels
accepted-all_below a n every e = range-all_below n 0 n (omega arith)
accepted-all_below a n (listed chs) e = elim (Option-cases (requested_values a)) [
  | inl h ↦ ground arith
  | inr (values, h) ↦ elim (Option-cases (each (within 0 n) values)) [
    | inl g ↦ ground arith
    | inr (vs, g) ↦ ground (arith, unique-all_below n vs, each-within-all_below n values vs g)
  ]
]

client_values :
    (w : Canonical) (n : ℕ) → listed_values (range_from 0 n) (wire w) ≡ some (map pos (meant w n))
unfolding listed_values lower_is
client_values every n = refl
client_values (listed chs) n = each-loose_integer chs

-- What the server makes of a `channels` field is accepted by the client, for the channels that the
-- user means, in the hardware's numbers, and then by the HV interface, without a change; the numbers
-- that the server shows for them are the user's.
pub channels_agree :
    (a : ChannelsArg) (n : ℕ) (w : Canonical)
    → normalize_user_channels a n ≡ some w
    → (channels_definition (wire w) n true false ≡ some (user_to_hv_channels (meant w n)))
      × (hv_channels_definition (sequence (integers (user_to_hv_channels (meant w n)))) n
          ≡ some (user_to_hv_channels (meant w n)))
      × (hv_to_user_channels (user_to_hv_channels (meant w n)) ≡ map pos (meant w n))
unfolding channels_definition hv_channels_definition user_to_hv_channels listed_values
channels_agree a n w e =
    let below = accepted-all_below a n w e in
    (
      ground (arith, client_values w n, each-within n (meant w n) below, map-plus_one (meant w n)),
      ground (arith, each-loose_integer (map suc (meant w n)), each-within_hv n (meant w n) below),
      hv_to_user-user_to_hv (meant w n),
    )

-- Whether an integer stands in a list.
pub asks_for : ℕ → List ℤ → Bool
asks_for c [] = false
asks_for c (pos v ∷ vs) = v == c || asks_for c vs
asks_for c (negsuc v ∷ vs) = asks_for c vs

each-within-has :
    (n c : ℕ) (values : List ℤ) (chs : List ℕ)
    → each (within 0 n) values ≡ some chs
    → has c chs ≡ asks_for c values
unfolding each within has asks_for
each-within-has n c [] chs e = ground arith
each-within-has n c (negsuc v ∷ values) chs e = ground arith
each-within-has n c (pos v ∷ values) chs e = elim (Option-cases (each (within 0 n) values)) [
  | inl h ↦ ground arith
  | inr (rest, h) ↦ ground (arith, each-within-has n c values rest h)
]

-- A list that `normalize_user_channels` returns has every requested channel once, no other, and
-- none that is not below the number of channels.
pub normalized_once :
    (a : ChannelsArg) (n : ℕ) (chs : List ℕ) (values : List ℤ) (c : ℕ)
    → normalize_user_channels a n ≡ some (listed chs)
    → requested_values a ≡ some values
    → (count c chs ≡ (if asks_for c values then 1 else 0)) × (all_below n chs ≡ true)
unfolding normalize_user_channels
normalized_once a n chs values c e r = elim (Option-cases (each (within 0 n) values)) [
  | inl g ↦ ground arith
  | inr (vs, g) ↦ (
    ground (arith, count-unique c vs, each-within-has n c values vs g),
    accepted-all_below a n (listed chs) e,
  )
]
