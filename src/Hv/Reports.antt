-- ===== src/Hv/Reports.antt =====
-- The loops of the monitoring: what they report of a channel, and what they do to the lists
-- (client/hardware/hv/hv_interface.py).
use multi_daq.Prelude.{
  Bool, true, false, not, Option, none, some, is_some, map_option, ℕ, suc, List, [], ◌∷◌, ◌++◌, map,
  ◌≡◌, refl, sym, ap, ◌∙◌, arith, if◌then◌else◌, ◌==◌, ◌&&◌, leb, select, Option-cases, inl, inr,
}
use multi_daq.Prelude.Numbers.{has}
use multi_daq.Prelude.Int.{ℤ, pos, negsuc, each}
use multi_daq.Channels.Definitions.{
  range_from, ChannelsArg, within, listed_values, hv_channels_definition,
}
use multi_daq.Channels.Agreement.{each-loose_integer}
use mathlib.Core.List.{append-nil, append_assoc}
use multi_daq.Hv.Lists.{move_to_bad, for_each}
use multi_daq.Hv.Commands.{n_channels}
use multi_daq.Hv.Monitoring.{
  ChannelState, ChannelEntry, Report, channels_arg, set_entry, note_reading, read_all, add_skipped,
}

module _ {ℓ} {A : Type ℓ} where
  unfoldable pub entry_of : ℕ → List (ℕ × ChannelEntry A) → Option (ChannelEntry A)
  entry_of ch [] = none
  entry_of ch ((j, e) ∷ m) = let rest = entry_of ch m in if j == ch then some e else rest

  -- The state that is reported of a channel.
  abbrev pub reported_state : ℕ → Report A → Option ChannelState
  reported_state ch r = map_option (λ e. e.state) (entry_of ch r.channels)

  pub entry_of-set_entry :
      (c ch : ℕ) (e : ChannelEntry A) (m : List (ℕ × ChannelEntry A))
      → entry_of c (set_entry ch e m) ≡ (if ch == c then some e else entry_of c m)
  unfolding entry_of set_entry
  entry_of-set_entry c ch e [] = ground arith
  entry_of-set_entry c ch e ((j, d) ∷ m) = ground (arith, entry_of-set_entry c ch e m)

  note_reading-state :
      (c ch : ℕ) (o : Option A) (x : ChannelState) (r : Report A)
      → reported_state c (note_reading o x ch r) ≡ (if ch == c then some x else reported_state c r)
  note_reading-state c ch none x r =
      ground (arith, entry_of-set_entry c ch (record { reading = none; state = x }) r.channels)
  note_reading-state c ch (some v) x r =
      ground (arith, entry_of-set_entry c ch (record { reading = some v; state = x }) r.channels)

  pub read_all-state :
      (reads : ℕ → Option A) (lookup : ℕ → ChannelState) (c n : ℕ) (chs : List ℕ) (r : Report A)
      → reported_state c (read_all reads lookup n chs r)
        ≡ (if has c chs then some (lookup c) else reported_state c r)
  unfolding read_all has
  read_all-state reads lookup c n [] r = refl
  read_all-state reads lookup c n (ch ∷ chs) r = ground (
    arith,
    read_all-state reads lookup c (suc n) chs (note_reading (reads n) (lookup ch) ch r),
    note_reading-state c ch (reads n) (lookup ch) r,
    same_lookup,
  )
    where
      same_lookup : (ch == c) ≡ true → lookup ch ≡ lookup c
      same_lookup e = ap lookup (ground (arith, e))

  -- The channels that cannot be read.
  unfoldable pub unread : (ℕ → Option A) → ℕ → List ℕ → List ℕ
  unread reads n [] = []
  unread reads n (ch ∷ chs) =
      let rest = unread reads (suc n) chs in if is_some (reads n) then rest else ch ∷ rest

  pub unread-has :
      (reads : ℕ → Option A) (c n : ℕ) (chs : List ℕ)
      → (has c (unread reads n chs) && not (has c chs)) ≡ false
  unfolding unread has
  unread-has reads c n [] = refl
  unread-has reads c n (ch ∷ chs) = ground (arith, unread-has reads c (suc n) chs)

  note_reading-failed :
      (o : Option A) (x : ChannelState) (ch : ℕ) (r : Report A)
      → (note_reading o x ch r).failed_channels
        ≡ r.failed_channels ++ (if is_some o then [] else ch ∷ [])
  note_reading-failed none x ch r = refl
  note_reading-failed (some v) x ch r = sym (append-nil r.failed_channels)

  pub read_all-failed :
      (reads : ℕ → Option A) (lookup : ℕ → ChannelState) (n : ℕ) (chs : List ℕ) (r : Report A)
      → (read_all reads lookup n chs r).failed_channels ≡ r.failed_channels ++ unread reads n chs
  unfolding read_all unread
  read_all-failed reads lookup n [] r = sym (append-nil r.failed_channels)
  read_all-failed reads lookup n (ch ∷ chs) r =
      let next = note_reading (reads n) (lookup ch) ch r in
      ground (
        arith,
        read_all-failed reads lookup (suc n) chs next,
        note_reading-failed (reads n) (lookup ch) ch r,
        append_assoc r.failed_channels (ch ∷ []) (unread reads (suc n) chs),
        append-nil r.failed_channels,
      )

  note_reading-hv :
      (o : Option A) (x : ChannelState) (ch : ℕ) (r : Report A)
      → (note_reading o x ch r).hv ≡ (if is_some o then r.hv else move_to_bad ch r.hv)
  note_reading-hv none x ch r = refl
  note_reading-hv (some v) x ch r = refl

  pub read_all-hv :
      (reads : ℕ → Option A) (lookup : ℕ → ChannelState) (n : ℕ) (chs : List ℕ) (r : Report A)
      → (read_all reads lookup n chs r).hv ≡ for_each move_to_bad (unread reads n chs) r.hv
  unfolding read_all unread for_each
  read_all-hv reads lookup n [] r = refl
  read_all-hv reads lookup n (ch ∷ chs) r =
      let next = note_reading (reads n) (lookup ch) ch r in
      read_all-hv reads lookup (suc n) chs next
      ∙ ap (for_each move_to_bad (unread reads (suc n) chs))
          (note_reading-hv (reads n) (lookup ch) ch r)
      ∙ by_answer (is_some (reads n)) (unread reads (suc n) chs)
    where
      by_answer :
          (b : Bool) (rest : List ℕ)
          → for_each move_to_bad rest (if b then r.hv else move_to_bad ch r.hv)
            ≡ for_each move_to_bad (if b then rest else ch ∷ rest) r.hv
      by_answer true rest = refl
      by_answer false rest = refl

  pub add_skipped-state :
      (lookup : ℕ → ChannelState) (c : ℕ) (chs : List ℕ) (m : List (ℕ × ChannelEntry A))
      → entry_of c (add_skipped lookup chs m)
        ≡ (if has c chs then some (record { reading = none; state = lookup c }) else entry_of c m)
  unfolding add_skipped has
  add_skipped-state lookup c [] m = refl
  add_skipped-state lookup c (ch ∷ chs) m = ground (
    arith,
    add_skipped-state lookup c chs (set_entry ch (record { reading = none; state = lookup ch }) m),
    entry_of-set_entry c ch (record { reading = none; state = lookup ch }) m,
    same_lookup,
  )
    where
      same_lookup : (ch == c) ≡ true → lookup ch ≡ lookup c
      same_lookup e = ap lookup (ground (arith, e))

pub has-select : (p : ℕ → Bool) (c : ℕ) (chs : List ℕ) → has c (select p chs) ≡ (has c chs && p c)
unfolding has select
has-select p c [] = refl
has-select p c (ch ∷ chs) = ground (arith, has-select p c chs, same_test)
  where
    same_test : (ch == c) ≡ true → p ch ≡ p c
    same_test e = ap p (ground (arith, e))

-- Every channel is one of the seven.
unfoldable pub all_valid : List ℕ → Bool
all_valid [] = true
all_valid (ch ∷ chs) = leb 1 ch && leb ch n_channels && all_valid chs

within-all_valid :
    (vs : List ℤ) (chs : List ℕ) → each (within 1 8) vs ≡ some chs → all_valid chs ≡ true
unfolding each within all_valid
within-all_valid [] chs e = ground arith
within-all_valid (negsuc v ∷ vs) chs e = ground arith
within-all_valid (pos v ∷ vs) [] e = refl
within-all_valid (pos v ∷ vs) (ch ∷ chs) e = elim (Option-cases (each (within 1 8) vs)) [
  | inl h ↦ ground arith
  | inr (rest, h) ↦ ground (arith, within-all_valid vs rest h)
]

select-all_valid :
    (p : ℕ → Bool) (chs : List ℕ) → all_valid chs ≡ true → all_valid (select p chs) ≡ true
unfolding select all_valid
select-all_valid p [] h = refl
select-all_valid p (ch ∷ chs) h = ground (arith, h, select-all_valid p chs)

each-within_valid :
    (chs : List ℕ) → all_valid chs ≡ true → each (within 1 8) (map pos chs) ≡ some chs
unfolding each within all_valid
each-within_valid [] h = refl
each-within_valid (ch ∷ chs) h = ground (arith, h, each-within_valid chs)

accepted-all_valid :
    (a : ChannelsArg) (chs : List ℕ)
    → hv_channels_definition a n_channels ≡ some chs
    → all_valid chs ≡ true
unfolding hv_channels_definition
accepted-all_valid a chs e = elim (Option-cases (listed_values (range_from 1 7) a)) [
  | inl h ↦ ground arith
  | inr (vs, h) ↦ within-all_valid vs chs (ground arith)
]

-- A part of a list of channels that was accepted is accepted as it is.
pub accepted-select :
    (p : ℕ → Bool) (a : ChannelsArg) (chs : List ℕ)
    → hv_channels_definition a n_channels ≡ some chs
    → hv_channels_definition (channels_arg (select p chs)) n_channels ≡ some (select p chs)
unfolding hv_channels_definition listed_values
accepted-select p a chs e = ground (
  arith,
  each-loose_integer (select p chs),
  each-within_valid (select p chs) (select-all_valid p chs (accepted-all_valid a chs e)),
)
