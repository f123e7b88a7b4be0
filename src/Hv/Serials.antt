-- ===== src/Hv/Serials.antt =====
-- The serial numbers of PMTs in class HV (client/hardware/hv/hv_interface.py): which channels have none,
-- and the map from channels to serial numbers. A text is the list of its code points.
use multi_daq.Prelude.{
  Bool, true, Option, none, some, map_option, ℕ, List, [], ◌∷◌, ◌++◌, ◌≡◌, refl, ap, arith,
  if◌then◌else◌, ◌&&◌, ◌||◌, ◌==◌, ltb, is_empty, is_some, Bool-cases, inl, inr,
}
use multi_daq.Prelude.Text.{is_space}
use multi_daq.Hv.Lists.{Hv, move_to_missing_serial, for_each}
use multi_daq.Board.Access.{Bus, HvModbus, num_channels, member}
use multi_daq.Board.Serials.{Codes, get_info, set_pmt_serial_number}

unfoldable pub lstrip : (ℕ → Bool) → Codes → Codes
lstrip p [] = []
lstrip p (c ∷ cs) = let rest = lstrip p cs in if p c then rest else c ∷ cs

unfoldable pub rstrip : (ℕ → Bool) → Codes → Codes
rstrip p [] = []
rstrip p (c ∷ cs) = let rest = rstrip p cs in if is_empty rest && p c then [] else c ∷ rest

abbrev pub is_nul : ℕ → Bool
is_nul c = c == 0

-- `set_pmt_serial`; `none` is an exception.
unfoldable pub set_pmt_serial : Bus → ℕ → Codes → HvModbus → Option HvModbus
set_pmt_serial bus channel serial s =
    if ltb channel 1 || ltb num_channels channel
    then none
    else set_pmt_serial_number bus serial (some channel) s

-- `_, pmt_serial, _, _, _ = self.hv.getInfo(slave=ch)`
unfoldable pub pmt_serial : Bus → HvModbus → ℕ → Option Codes
pmt_serial bus s ch = map_option (λ i. i.pmtsn) (get_info bus (some ch) s)

-- `not pmt_serial.strip("\x00").strip()`
unfoldable pub has_no_serial : Codes → Bool
unfolding lstrip rstrip
has_no_serial t = is_empty (lstrip is_space (rstrip is_space (lstrip is_nul (rstrip is_nul t))))

-- `_normalize_serial`
unfoldable pub normalize_serial : Codes → Codes
unfolding lstrip rstrip
normalize_serial t = lstrip is_space (rstrip is_space (rstrip is_nul t))

-- A channel that cannot be read has no serial number.
abbrev pub is_missing : Option Codes → Bool
is_missing none = true
is_missing (some t) = has_no_serial t

-- `check_missing_serial`: the channels in its reply, and the lists afterwards.
unfoldable pub check_missing_serial : Bus → HvModbus → List ℕ → Hv → List ℕ × Hv
unfolding pmt_serial has_no_serial
check_missing_serial bus s [] hv = ([], hv)
check_missing_serial bus s (ch ∷ chs) hv =
    let found = is_missing (pmt_serial bus s ch) in
    let rest =
      check_missing_serial bus s chs (if found then move_to_missing_serial ch hv else hv) in
    if found then (ch ∷ rest.0, rest.1) else rest

-- "0"
abbrev pub zero_text : Codes
zero_text = 48 ∷ []

abbrev pub entry : Option Codes → Codes
entry none = zero_text
entry (some t) = if has_no_serial t then zero_text else normalize_serial t

-- What is read, when it can be read.
abbrev pub normalized : Option Codes → Codes
normalized none = []
normalized (some t) = normalize_serial t

abbrev pub SerialMap : Type 0
SerialMap = List (ℕ × Codes)

unfoldable pub serial_at : ℕ → SerialMap → Option Codes
serial_at ch [] = none
serial_at ch ((j, t) ∷ m) = let rest = serial_at ch m in if j == ch then some t else rest

-- The loop of `get_serial_map`.
unfoldable pub map_from : Bus → HvModbus → List ℕ → SerialMap → SerialMap
unfolding serial_at pmt_serial has_no_serial normalize_serial
map_from bus s [] m = m
map_from bus s (ch ∷ chs) m =
    map_from bus s chs
      (if is_some (serial_at ch m) then m else m ++ (ch, entry (pmt_serial bus s ch)) ∷ [])

-- `get_serial_map`
unfoldable pub get_serial_map : Bus → HvModbus → List ℕ → SerialMap
unfolding map_from
get_serial_map bus s chs = map_from bus s chs []

serial_at-append :
    (ch : ℕ) (m n : SerialMap)
    → serial_at ch (m ++ n) ≡ (if is_some (serial_at ch m) then serial_at ch m else serial_at ch n)
unfolding serial_at
serial_at-append ch [] n = refl
serial_at-append ch ((j, t) ∷ m) n = ground (arith, serial_at-append ch m n)

module _ (bus : Bus) (s : HvModbus) where
  -- The map after one channel.
  abbrev noted : ℕ → SerialMap → SerialMap
  noted j m = if is_some (serial_at j m) then m else m ++ (j, entry (pmt_serial bus s j)) ∷ []

  serial_at-map_from :
      (ch : ℕ) (chs : List ℕ) (m : SerialMap)
      → serial_at ch (map_from bus s chs m) ≡ (
          if is_some (serial_at ch m)
          then serial_at ch m
          else if member ch chs
          then some (entry (pmt_serial bus s ch))
          else none)
  unfolding map_from member serial_at
  serial_at-map_from ch [] m = ground arith
  serial_at-map_from ch (j ∷ chs) m = elim (Bool-cases (j == ch)) [
    | inl e ↦
        let same : j ≡ ch = ground (arith, e) in
        ground (
          arith,
          e,
          serial_at-map_from ch chs (noted j m),
          serial_at-append ch m ((j, entry (pmt_serial bus s j)) ∷ []),
          ap (λ x. serial_at x m) same,
          ap (λ x. entry (pmt_serial bus s x)) same,
        )
    | inr e ↦ ground (
      arith,
      e,
      serial_at-map_from ch chs (noted j m),
      serial_at-append ch m ((j, entry (pmt_serial bus s j)) ∷ []),
    )
  ]

  -- The lists after one channel.
  abbrev moved : ℕ → Hv → Hv
  moved j hv = if is_missing (pmt_serial bus s j) then move_to_missing_serial j hv else hv

  pub member-check_missing_serial :
      (ch : ℕ) (chs : List ℕ) (hv : Hv)
      → member ch (check_missing_serial bus s chs hv).0
        ≡ (member ch chs && is_missing (pmt_serial bus s ch))
  unfolding check_missing_serial member
  member-check_missing_serial ch [] hv = refl
  member-check_missing_serial ch (j ∷ chs) hv = elim (Bool-cases (j == ch)) [
    | inl e ↦
        let same : j ≡ ch = ground (arith, e) in
        ground (
          arith,
          e,
          member-check_missing_serial ch chs (moved j hv),
          ap (λ x. is_missing (pmt_serial bus s x)) same,
        )
    | inr e ↦ ground (arith, e, member-check_missing_serial ch chs (moved j hv))
  ]

  moved_if_missing :
      (chs : List ℕ) (hv : Hv)
      → (check_missing_serial bus s chs hv).1
        ≡ for_each move_to_missing_serial (check_missing_serial bus s chs hv).0 hv
  unfolding check_missing_serial for_each
  moved_if_missing [] hv = refl
  moved_if_missing (j ∷ chs) hv = ground (arith, moved_if_missing chs (moved j hv))

-- The entries of the map and the lists, by what is read.
pub maps_agree :
    (bus : Bus) (s : HvModbus) (chs : List ℕ) (hv : Hv)
    → ((ch : ℕ)
        → serial_at ch (get_serial_map bus s chs) ≡ (
            if member ch chs
            then some (
                if member ch (check_missing_serial bus s chs hv).0
                then zero_text
                else normalized (pmt_serial bus s ch))
            else none))
      × ((check_missing_serial bus s chs hv).1
          ≡ for_each move_to_missing_serial (check_missing_serial bus s chs hv).0 hv)
unfolding get_serial_map serial_at
maps_agree bus s chs hv = (
  λ ch. ground (
    arith,
    serial_at-map_from bus s ch chs [],
    member-check_missing_serial bus s ch chs hv,
    entry_normalized (pmt_serial bus s ch),
  ),
  moved_if_missing bus s chs hv,
)
  where
    entry_normalized :
        (o : Option Codes) → entry o ≡ (if is_missing o then zero_text else normalized o)
    entry_normalized none = refl
    entry_normalized (some t) = refl
