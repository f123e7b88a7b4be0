-- ===== src/Hv/OkOffRecovery.antt =====
-- `recover_ok_off_acquisition` of HV (client/hardware/hv/hv_interface.py).
use multi_daq.Prelude.{
  Bool, true, false, not, Option, none, some, ℕ, suc, List, [], ◌∷◌, ◌++◌, map, if◌then◌else◌, ◌&&◌,
  ◌==◌, leb, is_empty, select,
}
use multi_daq.Prelude.Numbers.{has, sorted}
use multi_daq.Prelude.Int.{pos}
use multi_daq.Channels.Definitions.{sequence, integer}
use multi_daq.Hv.Lists.{Hv, Status, move_to_bad, get_ok_off_channels}
use multi_daq.Board.Access.{num_channels}
use multi_daq.Hv.Ramps.{
  Reading, Course, switch_on, RampResult, raised, out_of_fuel, replied, ramp_and_wait,
}
use multi_daq.Hv.AcqConfiguration.{ChannelConfig}

-- The answer of a channel before it is recovered: whether it answers at its address, and its reading.
pub record Check : Type 0 where
  pub answers : Bool
  pub reading : Reading

unfoldable pub is_safe : Reading → Bool
is_safe none = false
is_safe (some (Status.trip, alarm)) = false
is_safe (some (_, alarm)) = not alarm

-- The first loop: the safe channels, and the others.
unfoldable pub check_all : (ℕ → Check) → ℕ → List ℕ → List ℕ × List ℕ
unfolding is_safe
check_all check n [] = ([], [])
check_all check n (ch ∷ chs) =
    let rest = check_all check (suc n) chs in
    if leb 1 ch && leb ch num_channels && (check n).answers && is_safe (check n).reading
    then (ch ∷ rest.0, rest.1)
    else (rest.0, ch ∷ rest.1)

-- `acq_info.get(channel)`
unfoldable pub stored_config : ℕ → List (ℕ × ChannelConfig) → Option ChannelConfig
stored_config ch [] = none
stored_config ch ((k, e) ∷ info) =
    let rest = stored_config ch info in if k == ch then some e else rest

-- Both values are stored.
abbrev pub is_complete : Option ChannelConfig → Bool
is_complete none = false
is_complete (some e) = both_given e.voltage e.threshold
  where
    both_given : Option ℕ → Option ℕ → Bool
    both_given (some v) (some t) = true
    both_given _ _ = false

-- The state, and `failed_recovery`.
pub record Preparation : Type 0 where
  pub hv : Hv
  pub failed : List ℕ

abbrev pub prepare_channel : Bool → Bool → ℕ → Preparation → Preparation
prepare_channel false written ch r = record r { failed = r.failed ++ ch ∷ [] }
prepare_channel true true ch r = r
prepare_channel true false ch r = record r {
  hv = move_to_bad ch r.hv;
  failed = r.failed ++ ch ∷ [];
}

-- The second loop; `writes` says whether both values are written to the channel.
unfoldable pub prepare_all :
    List (ℕ × ChannelConfig) → (ℕ → Bool) → ℕ → List ℕ → Preparation → Preparation
unfolding stored_config
prepare_all info writes n [] r = r
prepare_all info writes n (ch ∷ chs) r =
    prepare_all info writes (suc n) chs
      (prepare_channel (is_complete (stored_config ch info)) (writes n) ch r)

pub record OkOffReply : Type 0 where
  pub checked_channels : List ℕ
  pub recovered_channels : List ℕ
  pub still_bad_channels : List ℕ

-- After `on_and_wait` of the safe channels, which raises for a channel above 7: the lists are then as
-- the loops before have left them.
abbrev pub powered : List ℕ → List ℕ → Preparation → RampResult → Hv × Option OkOffReply
powered checked safe r raised = (r.hv, none)
powered checked safe r out_of_fuel = (r.hv, none)
powered checked safe r (replied p) = (
  p.hv,
  some (record {
    checked_channels = checked;
    recovered_channels = select (λ ch. has ch p.successful_channels) safe;
    still_bad_channels = r.failed ++ select (λ ch. not (has ch p.successful_channels)) safe;
  }),
)

abbrev pub nothing_done : List ℕ → List ℕ → Hv → Hv × Option OkOffReply
nothing_done checked bad s = (
  s,
  some (record { checked_channels = checked; recovered_channels = []; still_bad_channels = bad }),
)

-- Switch the safe channels on, if there are any.
abbrev pub power_safe : Course → ℕ → ℕ → List ℕ → List ℕ → Preparation → Hv × Option OkOffReply
power_safe c timeout fuel checked safe r =
    if is_empty safe
    then nothing_done checked r.failed r.hv
    else powered checked safe r
        (ramp_and_wait switch_on c timeout fuel (sequence (map (λ ch. integer (pos ch)) safe)) r.hv)

unfoldable pub recover_ok_off_acquisition :
    List (ℕ × ChannelConfig)
    → (ℕ → Check)
    → (ℕ → Bool)
    → Course
    → ℕ
    → ℕ
    → Hv
    → Hv × Option OkOffReply
unfolding check_all prepare_all
recover_ok_off_acquisition info check writes c timeout fuel s =
    let channels = sorted (get_ok_off_channels s) in
    let found = check_all check 0 channels in
    if is_empty channels
    then nothing_done [] [] s
    else if is_empty info
    then nothing_done channels channels s
    else power_safe c timeout fuel channels found.0
        (prepare_all info writes 0 found.0 (record { hv = s; failed = found.1 }))
