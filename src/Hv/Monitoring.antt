-- ===== src/Hv/Monitoring.antt =====
-- The monitoring of HV: `get_ch_electrical`, `get_ch_status_and_alarm` and `monitor_snapshot`
-- (client/hardware/hv/hv_interface.py). What the n-th channel of a loop answers is an argument, `none`
-- when a read raises.
use multi_daq.Prelude.{
  not, Option, none, some, map_option, ℕ, suc, List, [], ◌∷◌, ◌++◌, map, if◌then◌else◌, ◌==◌,
  String, select,
}
use multi_daq.Prelude.Numbers.{has}
use multi_daq.Prelude.Int.{ℤ, pos}
use multi_daq.Channels.Definitions.{ChannelsArg, sequence, integer, hv_channels_definition}
use multi_daq.Hv.Lists.{Hv, Status, move_to_bad}
use multi_daq.Hv.Commands.{n_channels}

-- `channel_state` and `power_state` of a channel.
pub data ChannelState : Type 0 where
  fixed missing bad ok_on ok_off unlisted : ChannelState

unfoldable pub state_of : ℕ → Hv → ChannelState
state_of ch s =
    if has ch s.fixed_bad
    then fixed
    else if has ch s.missing_serial
    then missing
    else if has ch s.bad_ch
    then bad
    else if has ch s.on_ch
    then ok_on
    else if has ch s.off_ch
    then ok_off
    else unlisted

-- `_build_channel_state_lookup`, with what `state_lookup.get` gives for another channel.
unfoldable pub state_lookup : List ℕ → Hv → ℕ → ChannelState
unfolding state_of
state_lookup chs s ch = if has ch chs then state_of ch s else unlisted

-- In thousandths.
pub record Electrical : Type 0 where
  pub voltage : ℤ
  pub current : ℤ
  pub temperature : ℕ

pub record StatusAlarm : Type 0 where
  pub hw_status : Status
  pub hw_alarm : String

-- What is reported of a channel: the reading is `none` where the source has None.
pub record ChannelEntry {ℓ} (A : Type ℓ) : Type ℓ where
  pub reading : Option A
  pub state : ChannelState

pub record Report {ℓ} (A : Type ℓ) : Type ℓ where
  pub hv : Hv
  pub failed_channels : List ℕ
  pub channels : List (ℕ × ChannelEntry A)

abbrev pub channels_arg : List ℕ → ChannelsArg
channels_arg chs = sequence (map (λ ch. integer (pos ch)) chs)

module _ {ℓ} {A : Type ℓ} where
  -- `result["channels"][ch] = entry`
  unfoldable pub set_entry :
      ℕ → ChannelEntry A → List (ℕ × ChannelEntry A) → List (ℕ × ChannelEntry A)
  set_entry ch e [] = (ch, e) ∷ []
  set_entry ch e ((j, d) ∷ m) =
      let rest = set_entry ch e m in if j == ch then (j, e) ∷ m else (j, d) ∷ rest

  -- One turn of the loop.
  abbrev pub note_reading : Option A → ChannelState → ℕ → Report A → Report A
  note_reading none x ch r = record {
    hv = move_to_bad ch r.hv;
    failed_channels = r.failed_channels ++ ch ∷ [];
    channels = set_entry ch (record { reading = none; state = x }) r.channels;
  }
  note_reading (some v) x ch r = record r {
    channels = set_entry ch (record { reading = some v; state = x }) r.channels;
  }

  unfoldable pub read_all : (ℕ → Option A) → (ℕ → ChannelState) → ℕ → List ℕ → Report A → Report A
  unfolding set_entry
  read_all reads lookup n [] r = r
  read_all reads lookup n (ch ∷ chs) r =
      read_all reads lookup (suc n) chs (note_reading (reads n) (lookup ch) ch r)

  -- `get_ch_electrical` and `get_ch_status_and_alarm`
  unfoldable pub read_channels : (ℕ → Option A) → ChannelsArg → Hv → Option (Report A)
  unfolding read_all state_lookup
  read_channels reads a s =
      map_option
        (λ chs.
          read_all reads (state_lookup chs s) 0 chs
            (record { hv = s; failed_channels = []; channels = [] }))
        (hv_channels_definition a n_channels)

  -- `for ch in skipped_channels`
  unfoldable pub add_skipped :
      (ℕ → ChannelState) → List ℕ → List (ℕ × ChannelEntry A) → List (ℕ × ChannelEntry A)
  unfolding set_entry
  add_skipped lookup [] m = m
  add_skipped lookup (ch ∷ chs) m =
      add_skipped lookup chs (set_entry ch (record { reading = none; state = lookup ch }) m)

-- The lists `failed_channels` and `channels` of the two parts, the channels that are requested, used and
-- skipped, and the six lists (`get_channel_lists`).
pub record Snapshot : Type 0 where
  pub requested_channels : List ℕ
  pub used_channels : List ℕ
  pub skipped_channels : List ℕ
  pub electrical : Report Electrical
  pub status_alarm : Report StatusAlarm
  pub channel_lists : Hv

unfoldable pub snapshot : List ℕ → Hv → Report Electrical → Report StatusAlarm → Snapshot
unfolding add_skipped state_lookup
snapshot requested s e t =
    let skipped = select (λ ch. has ch s.fixed_bad) requested in
    let lookup = state_lookup requested s in
    record {
      requested_channels = requested;
      used_channels = select (λ ch. not (has ch s.fixed_bad)) requested;
      skipped_channels = skipped;
      electrical = record e { channels = add_skipped lookup skipped e.channels };
      status_alarm = record t { channels = add_skipped lookup skipped t.channels };
      channel_lists = t.hv;
    }

-- `monitor_snapshot`; `none` when `hv_channels_definition` raises.
unfoldable pub monitor_snapshot :
    (ℕ → Option Electrical) → (ℕ → Option StatusAlarm) → ChannelsArg → Hv → Option Snapshot
unfolding read_channels snapshot
monitor_snapshot electrics statuses a s = elim (hv_channels_definition a n_channels) [
  | none ↦ none
  | some requested ↦
      let monitored = channels_arg (select (λ ch. not (has ch s.fixed_bad)) requested) in
      elim (read_channels electrics monitored s) [
        | none ↦ none
        | some e ↦
            map_option (λ t. snapshot requested s e t) (read_channels statuses monitored e.hv)
      ]
]
