-- ===== src/Hv/BoardTests.antt =====
-- Runs of the methods of HV that work on the boards themselves, and their theorems at concrete inputs.
use multi_daq.Prelude.Numbers.{has, sorted, include}
use multi_daq.Prelude.Int.{each, pos}
use multi_daq.Channels.Definitions.{
  listed_values, within, ChannelsArg, sequence, integer, hv_channels_definition,
}
use multi_daq.Hv.Snapshots.{Observed, snapshot-Observed}
use multi_daq.Hv.Monitoring.{Electrical, StatusAlarm, Snapshot, monitor_snapshot}
use multi_daq.Prelude.{
  select, Option, map_option, ◌||◌, ◌&&◌, none, some, ℕ, [], ◌∷◌, ◌≡◌, refl, if◌then◌else◌, ◌==◌,
  true, false, is_empty,
}
use multi_daq.Hv.Lists.{Status, move_to_bad, move_to_missing_serial, Hv, for_each}
use multi_daq.Board.Access.{Bus, HvModbus}
use multi_daq.Board.Search.{IsFound, answers_at}
use multi_daq.Board.Access.{member}
use multi_daq.Board.Serials.{get_info}
use multi_daq.Prelude.Text.{is_space}
use multi_daq.Hv.Serials.{
  serial_at, get_serial_map, check_missing_serial, zero_text, normalized, pmt_serial,
}
use multi_daq.Board.Serials.{Codes}
use multi_daq.Hv.Trimmed.{IsTrimmed, some_is, is_visible, serials_agree}
use multi_daq.Hv.AddressChange.{asked_first, Changed, change_feb_address, address-Changed}

-- Channel 4 does not answer, channel 2 is up, channel 5 cannot be read, the others are down.
abbrev lists : Hv
lists = record {
  ok_ch = 1 ∷ 3 ∷ [];
  bad_ch = 5 ∷ 6 ∷ [];
  on_ch = [];
  off_ch = 1 ∷ 3 ∷ [];
  fixed_bad = [];
  missing_serial = [];
}

-- The board that answers at `k` alone.
abbrev only : ℕ → Bus
only k = record {
  connected = false;
  connects = true;
  answers = λ d a n. elim d [ none ↦ false | some j ↦ j == k ];
  takes = λ d a vs. true;
}

abbrev modbus : HvModbus
modbus = record { ch_addr = some 1; registers = λ d i. 0 }

-- The board at the standard address 20 gets the address 4.
address-Changed_example :
    IsFound
      (answers_at (only 20))
      (asked_first 4 (some 20))
      (change_feb_address (only 20) (only 4) 4 (some 20) lists modbus).0.old_address
    × Changed
        (only 20)
        (only 4)
        4
        lists
        modbus
        (change_feb_address (only 20) (only 4) 4 (some 20) lists modbus).0.old_address
        (change_feb_address (only 20) (only 4) 4 (some 20) lists modbus)
address-Changed_example = address-Changed (only 20) (only 4) 4 (some 20) lists modbus

-- Board 3 has a serial number, board 5 has none, no other board answers.
abbrev plugged : Bus
plugged = record {
  connected = true;
  connects = true;
  answers = λ d a n. elim d [ none ↦ false | some j ↦ j == 3 || j == 5 ];
  takes = λ d a vs. true;
}

abbrev labelled : HvModbus
labelled = record {
  ch_addr = none;
  registers = λ d i. elim d [ none ↦ 0 | some j ↦ if j == 3 && i == 8 then 20557 else 0 ];
}

serials_agree_example :
    ((ch : ℕ)
      → serial_at ch (get_serial_map plugged labelled (3 ∷ 5 ∷ 6 ∷ 3 ∷ [])) ≡ (
          if member ch (3 ∷ 5 ∷ 6 ∷ 3 ∷ [])
          then some (
              if member ch (check_missing_serial plugged labelled (3 ∷ 5 ∷ 6 ∷ 3 ∷ []) lists).0
              then zero_text
              else normalized (pmt_serial plugged labelled ch))
          else none))
    × ((ch : ℕ) (t : Codes)
        → pmt_serial plugged labelled ch ≡ some t
        → IsTrimmed t (normalized (pmt_serial plugged labelled ch)))
    × ((ch : ℕ) (t : Codes)
        → pmt_serial plugged labelled ch ≡ some t
        → some_is is_visible t ≡ true
        → member ch (check_missing_serial plugged labelled (3 ∷ 5 ∷ 6 ∷ 3 ∷ []) lists).0 ≡ false)
    × ((check_missing_serial plugged labelled (3 ∷ 5 ∷ 6 ∷ 3 ∷ []) lists).1
        ≡ for_each move_to_missing_serial
            (check_missing_serial plugged labelled (3 ∷ 5 ∷ 6 ∷ 3 ∷ []) lists).0
            lists)
serials_agree_example = serials_agree plugged labelled (3 ∷ 5 ∷ 6 ∷ 3 ∷ []) lists

serial_texts :
    get_serial_map plugged labelled (3 ∷ 5 ∷ 6 ∷ 3 ∷ [])
    ≡ (3, 80 ∷ 77 ∷ []) ∷ (5, zero_text) ∷ (6, zero_text) ∷ []
unfolding get_serial_map get_info is_empty is_space
serial_texts = refl

abbrev fixed_lists : Hv
fixed_lists = record lists { fixed_bad = 7 ∷ [] }

-- The second channel that is read does not answer.
abbrev electrics : ℕ → Option Electrical
electrics n =
    if n == 1
    then none
    else some (record { voltage = pos 1200000; current = pos 80; temperature = 31 })

abbrev statuses : ℕ → Option StatusAlarm
statuses n = some (record { hw_status = Status.up; hw_alarm = "none" })

abbrev some_channels : ChannelsArg
some_channels = sequence (integer (pos 1) ∷ integer (pos 7) ∷ integer (pos 3) ∷ [])

snapshot-Observed_example :
    (x : Snapshot) × (monitor_snapshot electrics statuses some_channels fixed_lists ≡ some x)
    × ((c : ℕ) → Observed c fixed_lists (1 ∷ 7 ∷ 3 ∷ []) x)
unfolding hv_channels_definition listed_values each within
snapshot-Observed_example =
    snapshot-Observed electrics statuses some_channels (1 ∷ 7 ∷ 3 ∷ []) fixed_lists refl

failed_second :
    map_option
      (λ x. x.channel_lists.bad_ch)
      (monitor_snapshot electrics statuses some_channels fixed_lists)
    ≡ some (3 ∷ 5 ∷ 6 ∷ [])
unfolding monitor_snapshot hv_channels_definition listed_values each within select has move_to_bad
    sorted include
failed_second = refl
