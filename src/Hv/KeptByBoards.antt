-- ===== src/Hv/KeptByBoards.antt =====
-- The monitoring, `check_missing_serial` and `change_feb_address` keep the lists of HV sound
-- (client/hardware/hv/hv_interface.py).
use multi_daq.Prelude.{
  Option, none, some, ℕ, List, [], ◌≡◌, sym, arith, map_option, Option-cases, inl, inr,
}
use mathlib.Core.Path.{subst}
use multi_daq.Channels.Definitions.{ChannelsArg, hv_channels_definition}
use multi_daq.Hv.Lists.{Hv, move_to_bad, move_to_missing_serial}
use multi_daq.Hv.Commands.{n_channels}
use multi_daq.Hv.Invariant.{
  IsSound, move_to_bad-IsSound, move_to_ok-IsSound, move_to_missing_serial-IsSound,
  for_each-IsSound,
}
use multi_daq.Hv.Kept.{if-IsSound}
use multi_daq.Hv.KeptByRamps.{or_state}
use multi_daq.Board.Access.{Bus, HvModbus}
use multi_daq.Hv.Monitoring.{
  Electrical, StatusAlarm, Report, read_channels, read_all, state_lookup, monitor_snapshot,
}
use multi_daq.Hv.Reports.{unread, read_all-hv}
use multi_daq.Hv.Snapshots.{snapshot-Observed}
use multi_daq.Hv.Serials.{check_missing_serial, maps_agree}
use multi_daq.Hv.AddressChange.{change_feb_address, address-Changed, should_succeed}

pub read_channels-IsSound :
    {A : Type 0} (reads : ℕ → Option A) (a : ChannelsArg) (s : Hv)
    → IsSound s
    → IsSound (or_state (λ r. r.hv) s (read_channels reads a s))
unfolding read_channels
read_channels-IsSound {A} reads a s i = by_channels (hv_channels_definition a n_channels)
  where
    start : Report A
    start = record { hv = s; failed_channels = []; channels = [] }

    by_channels :
        (o : Option (List ℕ))
        → IsSound (
            or_state
              (λ r. r.hv)
              s
              (map_option (λ chs. read_all reads (state_lookup chs s) 0 chs start) o))
    by_channels none = i
    by_channels (some chs) =
        subst IsSound (sym (read_all-hv reads (state_lookup chs s) 0 chs start))
          (for_each-IsSound move_to_bad (unread reads 0 chs) s move_to_bad-IsSound i)

pub monitor_snapshot-IsSound :
    (electrics : ℕ → Option Electrical) (statuses : ℕ → Option StatusAlarm) (a : ChannelsArg)
    (s : Hv)
    → IsSound s
    → IsSound (or_state (λ x. x.channel_lists) s (monitor_snapshot electrics statuses a s))
unfolding monitor_snapshot
monitor_snapshot-IsSound electrics statuses a s i =
    elim (Option-cases (hv_channels_definition a n_channels)) [
      | inl h ↦ subst (λ o. IsSound (or_state (λ x. x.channel_lists) s o)) (sym (refused h)) i
      | inr (chs, h) ↦
          let x = snapshot-Observed electrics statuses a chs s h in
          subst (λ o. IsSound (or_state (λ x. x.channel_lists) s o)) (sym x.1)
            (subst IsSound (sym ((x.2 0).lists))
              (for_each-IsSound move_to_bad _ s move_to_bad-IsSound i))
    ]
  where
    refused :
        hv_channels_definition a n_channels ≡ none → monitor_snapshot electrics statuses a s ≡ none
    refused h = ground (arith, h)

pub check_missing_serial-IsSound :
    (bus : Bus) (boards : HvModbus) (chs : List ℕ) (s : Hv)
    → IsSound s
    → IsSound (check_missing_serial bus boards chs s).1
check_missing_serial-IsSound bus boards chs s i =
    subst IsSound (sym ((maps_agree bus boards chs s).1))
      (for_each-IsSound move_to_missing_serial _ s move_to_missing_serial-IsSound i)

pub change_feb_address-IsSound :
    (before later : Bus) (new : ℕ) (standard : Option ℕ) (boards : HvModbus) (s : Hv)
    → IsSound s
    → IsSound (change_feb_address before later new standard s boards).1
change_feb_address-IsSound before later new standard boards s i =
    let (_, (_, _, lists, _, _)) = address-Changed before later new standard s boards in
    subst IsSound (sym lists) (
      if-IsSound
        (should_succeed before later new s boards
          (change_feb_address before later new standard s boards).0.old_address)
        _ _ (move_to_ok-IsSound new s i) i)
