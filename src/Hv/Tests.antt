-- ===== src/Hv/Tests.antt =====
-- Runs of HV on small inputs, and the theorems about it at concrete inputs.
use multi_daq.Prelude.{
  Bool, not, Option, none, some, ℕ, List, [], ◌∷◌, ◌≡◌, refl, get_or, if◌then◌else◌, ◌==◌, select,
  arith, true, false, suc, ◌+◌, ◌*◌, ◌≤◌, is_empty,
}
use multi_daq.Prelude.Numbers.{
  has, count, bit, discard, remove, include, sorted, insert_sorted, set_of, minus,
}
use multi_daq.Prelude.Int.{pos, each}
use multi_daq.Channels.Definitions.{
  integer, sequence, ChannelsArg, hv_channels_definition, listed_values, within,
}
use multi_daq.Hv.Lists.{
  Hv, move_to_ok, move_to_bad, move_to_on, move_to_off, move_to_fixed_bad, remove_from_fixed_bad,
  for_each, replace_fixed_bad, Status, get_ok_off_channels, status_string, sync_channel,
  sync_power_state, sync_shared, sync_ok_channels, check_channel, start,
}
use multi_daq.Hv.Commands.{
  Command, Reply, run_channels, on_ok_channels, on_all_channels, moves, reply_to, command,
  set_fixed_bad_channels, checked_status, recover, recover_bad_channels,
}
use multi_daq.Hv.Counts.{marks}
use multi_daq.Hv.Invariant.{IsSound}
use multi_daq.Hv.FixedBad.{refixed, fixed_bad_replaced}
use multi_daq.Hv.Replies.{Tells, reply-Tells}
use multi_daq.Hv.Ramps.{
  switch_on, Course, RampReply, replied, ramp_and_wait, ramp, round, wait, command_all, time_out,
  judge_on,
}
use multi_daq.Hv.Ramps.Ends.{Reported, ramp_ends}
use multi_daq.Hv.AcqConfiguration.{
  AcqConfig, Access, ChannelConfig, Setting, set_acquisition_configuration,
}
use multi_daq.Hv.Configured.{Told, configuration_ends}
use multi_daq.Hv.OkOffRecovery.{recover_ok_off_acquisition, check_all, prepare_all}
use multi_daq.Hv.PowerState.{settle_power, power_state_of, is_off, tripped}
use multi_daq.Hv.Runs.{Call, set_fixed_bad, operate, recover_bad, step, run, hv_run-IsSound}

-- Channel 4 does not answer, channel 2 is up, channel 5 cannot be read, the others are down.
abbrev responds : ℕ → Bool
responds ch = not (ch == 4)

abbrev read : ℕ → Option ℕ
read ch = if ch == 2 then some 0 else if ch == 5 then none else some 1

abbrev started : Hv
started = start responds read (7 ∷ [])

abbrev channels : ChannelsArg
channels = sequence (integer (pos 1) ∷ integer (pos 3) ∷ integer (pos 4) ∷ [])

-- The second access raises.
abbrev answers : ℕ → Bool
answers n = not (n == 1)

-- To unfold this is to unfold all that a run computes with.
after_start : List Call → Hv
unfolding run step start sync_power_state sync_shared sync_ok_channels sync_channel check_channel
    status_string for_each select has discard remove include sorted insert_sorted set_of minus
    move_to_ok move_to_bad move_to_on move_to_off move_to_fixed_bad remove_from_fixed_bad
    replace_fixed_bad set_fixed_bad_channels command reply_to on_ok_channels on_all_channels
    run_channels moves hv_channels_definition listed_values each within checked_status recover
    recover_bad_channels count
after_start cs = run started cs

abbrev powered : Reply
powered = on_ok_channels (moves Command.on) answers (1 ∷ 3 ∷ 4 ∷ []) started

-- Channel 5 cannot be read, so that channel 6 is passed over: it is neither on nor off.
started_lists : started ≡ record {
  ok_ch = 1 ∷ 2 ∷ 3 ∷ 6 ∷ [];
  bad_ch = 4 ∷ 5 ∷ [];
  on_ch = 2 ∷ [];
  off_ch = 1 ∷ 3 ∷ 5 ∷ [];
  fixed_bad = 7 ∷ [];
  missing_serial = [];
}
unfolding after_start
started_lists = refl

powered_lists : powered.outcome.state.on_ch ≡ 1 ∷ 2 ∷ []
unfolding after_start
powered_lists = refl

started-IsSound : IsSound started
unfolding run
started-IsSound = hv_run-IsSound responds read (7 ∷ []) []

hv_run-IsSound_example : IsSound (
    run (start responds read (7 ∷ [])) (
      operate Command.on answers channels
      ∷ recover_bad responds read
      ∷ set_fixed_bad channels
      ∷ []))
hv_run-IsSound_example =
    hv_run-IsSound responds read (7 ∷ []) (
      operate Command.on answers channels ∷ recover_bad responds read ∷ set_fixed_bad channels ∷ [])

reply-Tells_example : Tells 3 Command.on started powered
unfolding after_start
reply-Tells_example = reply-Tells Command.on answers channels started powered 3 started-IsSound refl

abbrev replaced : Hv
replaced = get_or (set_fixed_bad_channels channels started) started

fixed_bad_replaced_example :
    (count 4 replaced.fixed_bad ≡ bit (has 4 (1 ∷ 3 ∷ 4 ∷ [])))
    × (marks 4 replaced
        ≡ refixed (has 4 (1 ∷ 3 ∷ 4 ∷ [])) (has 4 started.fixed_bad) (marks 4 started))
unfolding after_start
fixed_bad_replaced_example =
    fixed_bad_replaced channels started replaced (1 ∷ 3 ∷ 4 ∷ []) 4 started-IsSound refl refl

-- Both channels are ramping up in the first round; the first one is up in the second, when the other
-- one trips. The pause is 2.
abbrev course : Course
course = record {
  accepts = λ n. true;
  reading = λ i n.
      if i == 0
      then some (Status.rup, false)
      else some (if n == 0 then Status.up else Status.trip, false);
  started = 10;
  clock = λ i. 10 + 2 * i;
}

course_pause : (i : ℕ) → course.clock i + 2 ≤ course.clock (suc i)
course_pause i = omega arith

abbrev one_and_three : ChannelsArg
one_and_three = sequence (integer (pos 1) ∷ integer (pos 3) ∷ [])

ramped : Option (List ℕ × List ℕ × List ℕ × List ℕ)
unfolding after_start ramp_and_wait
ramped = elim (ramp_and_wait switch_on course 60 31 one_and_three started) [
  | replied r ↦ some (r.successful_channels, r.failed_channels, r.shut, r.hv.on_ch)
  | _ ↦ none
]

ramped_lists : ramped ≡ some (1 ∷ [], 3 ∷ [], 3 ∷ [], 1 ∷ 2 ∷ [])
unfolding ramped ramp round wait command_all time_out judge_on after_start is_empty
ramped_lists = refl

ramp_ends_example :
    (r : RampReply) × (ramp_and_wait switch_on course 60 31 one_and_three started ≡ replied r)
    × Reported switch_on 3 (1 ∷ 3 ∷ []) started r
unfolding after_start
ramp_ends_example =
    ramp_ends switch_on course 60 2 30 one_and_three (1 ∷ 3 ∷ []) started 3 refl started-IsSound
      (omega arith) course_pause (omega arith)

-- Channel 1 gets a voltage, channel 3 has no entry.
abbrev config : AcqConfig
config = record {
  by_number = λ n. none;
  by_text = λ n.
      if n == 0 then some (record { voltage = some 900; threshold = none; bare = false }) else none;
}

abbrev access : ℕ → Access
access n = record {
  voltage_set = some 850;
  threshold_set = some 20;
  voltage_written = true;
  threshold_written = true;
}

configuration_ends_example :
    (r : Setting) × (set_acquisition_configuration true config access course 60 31 one_and_three
        started
      ≡ some r)
    × Told 1 (1 ∷ 3 ∷ []) started r
unfolding after_start
configuration_ends_example =
    configuration_ends true config access course 60 2 30 one_and_three (1 ∷ 3 ∷ []) started 1 refl
      (omega arith) course_pause (omega arith)

-- A channel without stored values is reported as still bad, and switched on and reported as recovered
-- all the same.
abbrev two_off : Hv
two_off = record {
  ok_ch = 1 ∷ 3 ∷ [];
  bad_ch = [];
  on_ch = [];
  off_ch = 1 ∷ 3 ∷ [];
  fixed_bad = [];
  missing_serial = [];
}

abbrev stored : List (ℕ × ChannelConfig)
stored = (1, record { voltage = some 900; threshold = some 20; bare = false }) ∷ []

abbrev all_up : Course
all_up = record {
  accepts = λ n. true;
  reading = λ i n. some (Status.up, false);
  started = 10;
  clock = λ i. 10 + 2 * i;
}

recovered : Option (List ℕ × List ℕ)
unfolding after_start recover_ok_off_acquisition
recovered =
    elim (recover_ok_off_acquisition stored
      (λ n. record { answers = true; reading = some (Status.down, false) }) (λ n. true) all_up 60 31
      two_off).1 [ none ↦ none | some r ↦ some (r.recovered_channels, r.still_bad_channels) ]

recovered_lem : recovered ≡ some (1 ∷ 3 ∷ [], 3 ∷ [])
unfolding recovered recover_ok_off_acquisition check_all prepare_all is_empty get_ok_off_channels
    ramp_and_wait
recovered_lem = refl

-- A channel that is moving is read until the deadline.
settled :
    (settle_power (some Status.rdn ∷ some Status.rdn ∷ some Status.down ∷ []) none ≡ is_off)
    × (settle_power (some Status.rup ∷ []) (some Status.trip) ≡ tripped)
unfolding settle_power power_state_of
settled = (refl, refl)
