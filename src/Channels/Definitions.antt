-- ===== src/Channels/Definitions.antt =====
-- server/utils/channels.py, client/utils/channels.py and `hv_channels_definition` of
-- client/hardware/hv/hv_interface.py. An exception is `none`. Users number the channels from 0, the
-- hardware from 1; an accepted integer is given as the natural number that it is.
use multi_daq.Prelude.{
  Bool, false, not, Option, none, some, ℕ, zero, suc, ◌+◌, ◌-◌, String, List, [], ◌∷◌, map, ◌&&◌,
  if◌then◌else◌, ltb, leb, is_empty, select, ◌==◌,
}
use multi_daq.Prelude.Text.{strip, spells, lower_is}
use multi_daq.Prelude.Int.{ℤ, pos, negsuc, int_of_text, split_commas, each}

-- A value of a JSON message. `other` is one that numbers are not compared with; floats are left out.
pub data Value : Type 0 where
  integer : ℤ → Value
  boolean : Bool → Value
  text : String → Value
  other : Value

-- The `channels` argument: a single value, a list or a tuple.
pub data ChannelsArg : Type 0 where
  single : Value → ChannelsArg
  sequence tuple : List Value → ChannelsArg

-- `list(range(start, start + n))`
unfoldable pub range_from : ℕ → ℕ → List ℕ
range_from start zero = []
range_from start (suc n) = start ∷ range_from (suc start) n

-- An integer that passes the test `low <= v < high`.
unfoldable pub within : ℕ → ℕ → ℤ → Option ℕ
within low high (pos v) = if leb low v && ltb v high then some v else none
within low high (negsuc v) = none

-- `list(dict.fromkeys(values))`
unfoldable pub unique : List ℕ → List ℕ
unique [] = []
unique (v ∷ vs) = v ∷ select (λ w. not (w == v)) (unique vs)

-- What the server puts into a command: "all", or the channels.
pub data Canonical : Type 0 where
  every : Canonical
  listed : List ℕ → Canonical

-- The items that `normalize_user_channels` takes: bool is refused.
abbrev strict_integer : Value → Option ℤ
strict_integer (integer v) = some v
strict_integer _ = none

abbrev non_empty : List Value → Option (List ℤ)
non_empty vs = if is_empty vs then none else each strict_integer vs

abbrev int_of_part : String → Option ℤ
int_of_part part = int_of_text (strip part)

unfoldable pub requested_values : ChannelsArg → Option (List ℤ)
requested_values (single (text t)) = each int_of_part (split_commas (strip t))
requested_values (single v) = each strict_integer (v ∷ [])
requested_values (sequence vs) = non_empty vs
requested_values (tuple vs) = non_empty vs

abbrev is_all : ChannelsArg → Bool
is_all (single (text t)) = spells "all" t
is_all _ = false

abbrev checked : ℕ → List ℤ → Option Canonical
checked n values = elim (each (within 0 n) values) [
  | none ↦ none
  | some vs ↦ some (listed (unique vs))
]

-- `normalize_user_channels`
unfoldable pub normalize_user_channels : ChannelsArg → ℕ → Option Canonical
normalize_user_channels channels n =
    if is_all channels
    then some every
    else elim (requested_values channels) [ none ↦ none | some values ↦ checked n values ]

-- The items that numbers are compared with: a bool is an int.
abbrev pub loose_integer : Value → Option ℤ
loose_integer (integer v) = some v
loose_integer (boolean b) = some (pos (if b then 1 else 0))
loose_integer _ = none

-- The list of `channels_definition` and of `hv_channels_definition`, before the test of the bounds;
-- the first argument is what "all" stands for.
unfoldable pub listed_values : List ℕ → ChannelsArg → Option (List ℤ)
listed_values all_channels (single (text t)) =
    if lower_is "all" t then some (map pos all_channels) else each int_of_text (split_commas t)
listed_values all_channels (single v) = each loose_integer (v ∷ [])
listed_values all_channels (sequence vs) = each loose_integer vs
listed_values all_channels (tuple vs) = none

abbrev pub offset : Bool → ℕ → List ℕ → List ℕ
offset flag k chs = if flag then map (λ ch. ch + k) chs else chs

-- `channels_definition`
unfoldable pub channels_definition : ChannelsArg → ℕ → Bool → Bool → Option (List ℕ)
channels_definition channels n hv_channels rc_channels =
    elim (listed_values (range_from 0 n) channels) [
      | none ↦ none
      | some values ↦ elim (each (within 0 n) values) [
        | none ↦ none
        | some chs ↦ some (offset rc_channels 20 (offset hv_channels 1 chs))
      ]
    ]

-- `hv_channels_definition`
unfoldable pub hv_channels_definition : ChannelsArg → ℕ → Option (List ℕ)
hv_channels_definition channels n = elim (listed_values (range_from 1 n) channels) [
  | none ↦ none
  | some values ↦ each (within 1 (suc n)) values
]

-- `hv_to_user_channels`
unfoldable pub hv_to_user_channels : List ℕ → List ℤ
hv_to_user_channels channels = map (λ ch. if ch == 0 then negsuc 0 else pos (ch - 1)) channels

-- `user_to_hv_channels`
unfoldable pub user_to_hv_channels : List ℕ → List ℕ
user_to_hv_channels channels = map suc channels

-- The `channels` field that the client finds in the message.
abbrev pub wire : Canonical → ChannelsArg
wire every = single (text "all")
wire (listed chs) = sequence (map (λ ch. integer (pos ch)) chs)
