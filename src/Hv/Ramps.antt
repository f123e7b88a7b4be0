-- ===== src/Hv/Ramps.antt =====
-- The loops of HV that wait for the end of a ramp: `on_and_wait` and `off_and_wait`
-- (client/hardware/hv/hv_interface.py). What the hardware and the clock answer during a call is a
-- `Course`. The reset and the switching off of a channel that failed are kept as the list of channels
-- for which they are tried.
pub mod Track
pub mod Loops
pub mod Ends
use multi_daq.Prelude.{
  Bool, true, false, not, Option, none, some, map_option, ℕ, zero, suc, ◌+◌, List, [], ◌∷◌, ◌++◌,
  if◌then◌else◌, ◌||◌, ltb, is_empty, select, str_eq,
}
use multi_daq.Prelude.Numbers.{has, remove, sorted, set_of}
use multi_daq.Channels.Definitions.{ChannelsArg, hv_channels_definition}
use multi_daq.Hv.Lists.{Hv, Status, move_to_bad, move_to_on, move_to_off, for_each}
use multi_daq.Hv.Commands.{n_channels, Outcome, Reply}

pub data Ramp : Type 0 where
  switch_on switch_off : Ramp

-- What a channel is read as: its status, and whether an alarm is active; `none` when a read raises.
abbrev pub Reading : Type 0
Reading = Option (Status × Bool)

-- The n-th command goes through or raises; the reading at a place of a round; the time at the test
-- before a round.
pub record Course : Type 0 where
  pub accepts : ℕ → Bool
  pub reading : ℕ → ℕ → Reading
  pub started : ℕ
  pub clock : ℕ → ℕ

-- What a turn of the loop finds; a failure says whether the channel is then reset and switched off.
pub data Verdict : Type 0 where
  reached waiting : Verdict
  failure : Bool → Verdict

-- The tests of `on_and_wait`.
unfoldable pub judge_on : Reading → Verdict
judge_on none = failure true
judge_on (some (Status.up, alarm)) = reached
judge_on (some (Status.trip, alarm)) = failure true
judge_on (some (_, alarm)) = if alarm then failure true else waiting

-- The tests of `off_and_wait`, which does not read the alarm. No status is called "OFF".
unfoldable pub judge_off : Reading → Verdict
judge_off none = failure false
judge_off (some (Status.down, alarm)) = reached
judge_off (some (Status.trip, alarm)) = failure true
judge_off (some (_, alarm)) = waiting

abbrev pub judge : Ramp → Reading → Verdict
judge switch_on r = judge_on r
judge switch_off r = judge_off r

-- What a channel that reaches its state is moved by.
abbrev pub arrive : Ramp → ℕ → Hv → Hv
arrive switch_on ch s = move_to_on ch s
arrive switch_off ch s = move_to_off ch s

-- `on_and_wait` tries to reset and switch off every channel that fails, `off_and_wait` those that trip.
abbrev pub always_shuts : Ramp → Bool
always_shuts switch_on = true
always_shuts switch_off = false

pub record Wait : Type 0 where
  pub hv : Hv
  pub pending : List ℕ
  pub arrived : List ℕ
  pub failed : List ℕ
  pub shut : List ℕ

abbrev pub shut_if : Bool → ℕ → List ℕ → List ℕ
shut_if true ch chs = chs ++ ch ∷ []
shut_if false ch chs = chs

abbrev pub fail_channel : Bool → ℕ → Wait → Wait
fail_channel b ch w = record w {
  hv = move_to_bad ch w.hv;
  failed = w.failed ++ ch ∷ [];
  shut = shut_if b ch w.shut;
}

-- One turn of the loop over the pending channels.
abbrev pub turn : Ramp → Verdict → ℕ → Wait → Wait
turn k waiting ch w = w
turn k reached ch w = record w {
  hv = arrive k ch w.hv;
  arrived = w.arrived ++ ch ∷ [];
  pending = remove ch w.pending;
}
turn k (failure b) ch w = record (fail_channel b ch w) { pending = remove ch w.pending }

-- `for ch in list(pending_channels)`
unfoldable pub round : Ramp → (ℕ → Reading) → ℕ → List ℕ → Wait → Wait
unfolding judge_on judge_off
round k reading n [] w = w
round k reading n (ch ∷ chs) w = round k reading (suc n) chs (turn k (judge k (reading n)) ch w)

-- `while pending_channels and time.time() < deadline`; `none` when the fuel runs out.
unfoldable pub wait : Ramp → Course → ℕ → ℕ → ℕ → Wait → Option Wait
unfolding round
wait k c deadline zero n w = none
wait k c deadline (suc fuel) n w =
    let rest = wait k c deadline fuel (suc n) (round k (c.reading n) 0 w.pending w) in
    if is_empty w.pending || not (ltb (c.clock n) deadline) then some w else rest

-- The commands to the channels, before the wait.
unfoldable pub command_all : Ramp → (ℕ → Bool) → ℕ → List ℕ → Wait → Wait
command_all k accepts n [] w = w
command_all k accepts n (ch ∷ chs) w = command_all k accepts (suc n) chs (
    if accepts n
    then record w { pending = w.pending ++ ch ∷ [] }
    else fail_channel (always_shuts k) ch w)

-- `if pending_channels`, after the loop.
unfoldable pub time_out : Ramp → List ℕ → Wait → Wait
time_out k [] w = w
time_out k (ch ∷ chs) w = time_out k chs (fail_channel (always_shuts k) ch w)

abbrev pub idle : Hv → Wait
idle s = record { hv = s; pending = []; arrived = []; failed = []; shut = [] }

-- The channels that took the command and did not fail.
abbrev pub to_wait_for : Wait → Wait
to_wait_for w = record w { pending = select (λ ch. not (has ch w.failed)) w.pending }

pub record RampReply : Type 0 where
  pub requested_channels : List ℕ
  pub used_channels : List ℕ
  pub skipped_channels : List ℕ
  pub successful_channels : List ℕ
  pub failed_channels : List ℕ
  pub hv : Hv
  pub shut : List ℕ

abbrev pub ramp_reply : List ℕ → List ℕ → List ℕ → Wait → RampReply
ramp_reply requested used skipped w = record {
  requested_channels = requested;
  used_channels = used;
  skipped_channels = skipped;
  successful_channels = sorted w.arrived;
  failed_channels = sorted (set_of w.failed);
  hv = w.hv;
  shut = w.shut;
}

abbrev pub after_wait : Ramp → Wait → Wait
after_wait k w = time_out k w.pending w

-- From the normalized channels on.
unfoldable pub ramp : Ramp → Course → ℕ → ℕ → List ℕ → Hv → Option RampReply
unfolding wait command_all time_out
ramp k c timeout fuel requested s =
    let used = select (λ ch. has ch s.ok_ch) requested in
    let skipped = select (λ ch. not (has ch s.ok_ch)) requested in
    map_option (λ w. ramp_reply requested used skipped (after_wait k w))
      (wait k c (c.started + timeout) fuel 0
        (to_wait_for (command_all k c.accepts 0 used (idle s))))

-- What a call ends with.
pub data RampResult : Type 0 where
  raised out_of_fuel : RampResult
  replied : RampReply → RampResult

abbrev pub result_of : Option RampReply → RampResult
result_of none = out_of_fuel
result_of (some r) = replied r

-- `on_and_wait` and `off_and_wait`.
unfoldable pub ramp_and_wait : Ramp → Course → ℕ → ℕ → ChannelsArg → Hv → RampResult
unfolding ramp
ramp_and_wait k c timeout fuel channels s = elim (hv_channels_definition channels n_channels) [
  | none ↦ raised
  | some chs ↦ result_of (ramp k c timeout fuel chs s)
]
