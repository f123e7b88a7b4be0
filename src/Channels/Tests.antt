-- ===== src/Channels/Tests.antt =====
-- The `channels` field of some commands, and the theorems about it at concrete inputs.
use multi_daq.Prelude.{
  true, false, Option, none, some, String, [], ◌∷◌, map, ◌≡◌, refl, if◌then◌else◌, select,
}
use multi_daq.Prelude.Text.{strip, spells, lower_is}
use multi_daq.Prelude.Numbers.{count}
use multi_daq.Prelude.Int.{pos, each, int_of_text, split_commas}
use multi_daq.Channels.Definitions.{
  text, boolean, single, sequence, Canonical, every, listed, within, unique, requested_values,
  normalize_user_channels, channels_definition, hv_channels_definition, hv_to_user_channels,
  user_to_hv_channels, wire,
}
use multi_daq.Channels.Agreement.{integers, all_below, asks_for, channels_agree, normalized_once}

-- To unfold this is to unfold all that the functions compute with.
normalized : String → Option Canonical
unfolding normalize_user_channels requested_values spells lower_is split_commas int_of_text each
    within unique select strip
normalized s = normalize_user_channels (single (text s)) 7

repeated : normalized " 2, 0,+2 " ≡ some (listed (2 ∷ 0 ∷ []))
unfolding normalized
repeated = refl

out_of_range : normalized "0,7" ≡ none
unfolding normalized
out_of_range = refl

all_channels : normalized " ALL" ≡ some every
unfolding normalized
all_channels = refl

bool_refused : normalize_user_channels (single (boolean true)) 7 ≡ none
unfolding normalized
bool_refused = refl

channels_agree_example :
    (channels_definition (wire (listed (2 ∷ 0 ∷ []))) 7 true false
      ≡ some (user_to_hv_channels (2 ∷ 0 ∷ [])))
    × (hv_channels_definition (sequence (integers (user_to_hv_channels (2 ∷ 0 ∷ [])))) 7
        ≡ some (user_to_hv_channels (2 ∷ 0 ∷ [])))
    × (hv_to_user_channels (user_to_hv_channels (2 ∷ 0 ∷ [])) ≡ map pos (2 ∷ 0 ∷ []))
unfolding normalized
channels_agree_example = channels_agree (single (text " 2, 0,+2 ")) 7 (listed (2 ∷ 0 ∷ [])) refl

normalized_once_example :
    (count 2 (2 ∷ 0 ∷ []) ≡ (if asks_for 2 (pos 2 ∷ pos 0 ∷ pos 2 ∷ []) then 1 else 0))
    × (all_below 7 (2 ∷ 0 ∷ []) ≡ true)
unfolding normalized
normalized_once_example =
    normalized_once (single (text " 2, 0,+2 ")) 7 (2 ∷ 0 ∷ []) (pos 2 ∷ pos 0 ∷ pos 2 ∷ []) 2 refl
      refl
