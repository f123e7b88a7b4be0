-- ===== src/MacRegistry/Registry.antt =====
-- MacIdentityRegistry (server/core/mac_id_registry.py). The file is a parameter: what reading it gives
-- (`none`: no file, or one that cannot be read), and whether a write succeeds. Its values are natural
-- numbers; the path that is remembered is left out.
use multi_daq.Prelude.{
  Bool, not, Option, none, some, ℕ, suc, String, [], ◌∷◌, if◌then◌else◌, ◌==◌, ◌&&◌, get_or,
  is_some, str_eq,
}
use multi_daq.Prelude.Dict.{Dict, find, insert}

-- `present_client_mac_id` and `mac_by_numeric_id`.
pub record Registry : Type 0 where
  pub present : Option (Dict ℕ)
  pub mac_by_id : ℕ → Option String

-- `__init__`
abbrev pub new_registry : Registry
new_registry = record { present = none; mac_by_id = λ n. none }

-- The comprehension that turns the file's entries around: of two entries with one id the later wins.
unfoldable pub inverted : Dict ℕ → ℕ → Option String
inverted [] n = none
inverted ((mac, id) ∷ d) n =
    let later = inverted d n in
    if is_some later then later else if id == n && not (str_eq mac "index") then some mac else none

-- `_load_from_file`, when nothing has been loaded yet.
abbrev pub load : Option (Dict ℕ) → Registry → Registry
load none r = r
load (some d) r = record { present = some d; mac_by_id = inverted d }

abbrev pub loaded : Option (Dict ℕ) → Registry → Registry
loaded file r = if is_some r.present then r else load file r

-- `mac_by_numeric_id[n] = mac`
unfoldable pub note_id : ℕ → String → (ℕ → Option String) → ℕ → Option String
note_id n mac m k = if n == k then some mac else m k

-- `actual_idx + 1`, from -1 if there is no index yet.
abbrev pub next_index : Option ℕ → ℕ
next_index none = 0
next_index (some i) = suc i

-- `add_client_mac`, once the file has been read and the address looked up. The id is given even if
-- it cannot be saved, and the call then returns None.
unfoldable pub register :
    Option ℕ → Bool → String → Dict ℕ → (ℕ → Option String) → Registry × Option ℕ
register (some n) saves mac d by_id =
    (record { present = some d; mac_by_id = note_id n mac by_id }, some n)
register none saves mac d by_id =
    let n = next_index (find "index" d) in
    (
      record {
        present = some (insert "index" n (insert mac n d));
        mac_by_id = note_id n mac by_id;
      },
      if saves then some n else none,
    )

-- `add_client_mac`
unfoldable pub add_client_mac : Option (Dict ℕ) → Bool → String → Registry → Registry × Option ℕ
unfolding register
add_client_mac file saves mac r =
    let s = loaded file r in
    let d = get_or s.present [] in register (find mac d) saves mac d s.mac_by_id

-- `get_id_from_mac`
unfoldable pub get_id_from_mac : Option (Dict ℕ) → Bool → String → Registry → Registry × Option ℕ
get_id_from_mac file saves mac r =
    let s = loaded file r in
    elim (find mac (get_or s.present [])) [
      | some n ↦ (s, some n)
      | none ↦ add_client_mac file saves mac s
    ]

-- `get_mac_from_id`, for an id that is a number.
unfoldable pub get_mac_from_id : Option (Dict ℕ) → ℕ → Registry → Registry × Option String
get_mac_from_id file n r = let s = loaded file r in (s, s.mac_by_id n)
