-- ===== src/Hv/Runs.antt =====
-- The start of HV, and every run of its methods (client/hardware/hv/hv_interface.py).
use multi_daq.Prelude.{
  Bool, not, Option, none, some, ℕ, ◌≤◌, List, [], ◌∷◌, ◌≡◌, refl, arith, select, get_or,
}
use multi_daq.Prelude.Numbers.{count, has, count-select}
use multi_daq.Channels.Definitions.{ChannelsArg}
use multi_daq.Hv.Lists.{
  Hv, move_to_ok, move_to_bad, move_to_on, move_to_off, move_to_fixed_bad, move_to_missing_serial,
  remove_from_fixed_bad, remove_from_missing_serial, sync_power_state, sync_ok_channels, start,
  scanned, check_channel, scan_range,
}
use multi_daq.Hv.Commands.{Command, Reply, command, set_fixed_bad_channels, recover_bad_channels}
use multi_daq.Hv.Ramps.{Ramp, Course, ramp_and_wait}
use multi_daq.Hv.PowerState.{Reads, get_power_state}
use multi_daq.Hv.AcqConfiguration.{AcqConfig, Access, ChannelConfig, set_acquisition_configuration}
use multi_daq.Hv.OkOffRecovery.{Check, recover_ok_off_acquisition}
use multi_daq.Hv.KeptByRamps.{or_state, ramp_state, ramp_and_wait-IsSound}
use multi_daq.Hv.KeptByOthers.{
  get_power_state-IsSound, set_acquisition_configuration-IsSound, recover_ok_off-IsSound,
}
use multi_daq.Board.Access.{Bus, HvModbus}
use multi_daq.Hv.Monitoring.{Electrical, StatusAlarm, read_channels, monitor_snapshot}
use multi_daq.Hv.Serials.{check_missing_serial}
use multi_daq.Hv.AddressChange.{change_feb_address}
use multi_daq.Hv.KeptByBoards.{
  read_channels-IsSound, monitor_snapshot-IsSound, check_missing_serial-IsSound,
  change_feb_address-IsSound,
}
use multi_daq.Hv.Kept.{recover-IsSound, command-IsSound, set_fixed_bad-IsSound}
use multi_daq.Hv.Invariant.{
  IsSound, move_to_ok-IsSound, move_to_bad-IsSound, move_to_on-IsSound, move_to_off-IsSound,
  move_to_fixed_bad-IsSound, move_to_missing_serial-IsSound, remove_from_fixed_bad-IsSound,
  remove_from_missing_serial-IsSound, for_each-IsSound, sync_power_state-IsSound,
  sync_ok_channels-IsSound,
}

-- A call of a method, with what the hardware answers to it.
pub data Call : Type 0 where
  to_ok to_bad to_on to_off to_fixed_bad to_missing_serial : ℕ → Call
  from_fixed_bad from_missing_serial : ℕ → Call
  set_fixed_bad : ChannelsArg → Call
  sync : (ℕ → Option ℕ) → List ℕ → Call
  sync_own : (ℕ → Option ℕ) → Call
  operate : Command → (ℕ → Bool) → ChannelsArg → Call
  recover_bad : (ℕ → Bool) → (ℕ → Option ℕ) → Call
  ramp_to : Ramp → Course → ℕ → ℕ → ChannelsArg → Call
  read_power : (ℕ → Reads) → ChannelsArg → Call
  configure : Bool → AcqConfig → (ℕ → Access) → Course → ℕ → ℕ → ChannelsArg → Call
  electrical : (ℕ → Option Electrical) → ChannelsArg → Call
  status_alarm : (ℕ → Option StatusAlarm) → ChannelsArg → Call
  monitor : (ℕ → Option Electrical) → (ℕ → Option StatusAlarm) → ChannelsArg → Call
  check_serials : Bus → HvModbus → List ℕ → Call
  new_address : Bus → Bus → ℕ → Option ℕ → HvModbus → Call
  recover_off : List (ℕ × ChannelConfig) → (ℕ → Check) → (ℕ → Bool) → Course → ℕ → ℕ → Call

abbrev state_after : Hv → Option Reply → Hv
state_after s none = s
state_after s (some r) = r.outcome.state

-- A call that raises leaves the lists as they are, except `recover_ok_off_acquisition`, which may have
-- moved channels before it raises.
unfoldable pub step : Hv → Call → Hv
step s (to_ok ch) = move_to_ok ch s
step s (to_bad ch) = move_to_bad ch s
step s (to_on ch) = move_to_on ch s
step s (to_off ch) = move_to_off ch s
step s (to_fixed_bad ch) = move_to_fixed_bad ch s
step s (to_missing_serial ch) = move_to_missing_serial ch s
step s (from_fixed_bad ch) = remove_from_fixed_bad ch s
step s (from_missing_serial ch) = remove_from_missing_serial ch s
step s (set_fixed_bad channels) = get_or (set_fixed_bad_channels channels s) s
step s (sync read chs) = sync_power_state read chs s
step s (sync_own read) = sync_ok_channels read s
step s (operate k answers channels) = state_after s (command k answers channels s)
step s (recover_bad responds read) = (recover_bad_channels responds read s).state
step s (ramp_to k c timeout fuel a) = ramp_state s (ramp_and_wait k c timeout fuel a s)
step s (read_power reads a) = or_state (λ r. r.hv) s (get_power_state reads a s)
step s (configure wait_ramp config access c timeout fuel a) =
    or_state (λ r. r.hv) s
      (set_acquisition_configuration wait_ramp config access c timeout fuel a s)
step s (recover_off info check writes c timeout fuel) =
    (recover_ok_off_acquisition info check writes c timeout fuel s).0
step s (electrical reads a) = or_state (λ r. r.hv) s (read_channels reads a s)
step s (status_alarm reads a) = or_state (λ r. r.hv) s (read_channels reads a s)
step s (monitor electrics statuses a) =
    or_state (λ x. x.channel_lists) s (monitor_snapshot electrics statuses a s)
step s (check_serials bus boards chs) = (check_missing_serial bus boards chs s).1
step s (new_address before later new standard boards) =
    (change_feb_address before later new standard s boards).1

unfoldable pub run : Hv → List Call → Hv
unfolding step
run s [] = s
run s (c ∷ cs) = run (step s c) cs

count-scan_range : (c : ℕ) → count c scan_range ≤ 1
unfolding count
count-scan_range c = ground arith

scanned-IsSound : (responds : ℕ → Bool) (fixed : List ℕ) → IsSound (scanned responds fixed)
unfolding check_channel count
scanned-IsSound responds fixed c =
    let scan_channels = select (λ ch. not (has ch fixed)) scan_range in
    record {
      ok_or_bad = ground (
        arith,
        count-select c responds scan_channels,
        count-select c (λ ch. not (responds ch)) scan_channels,
        count-select c (λ ch. not (has ch fixed)) scan_range,
        count-scan_range c,
      );
      on_or_off = omega arith;
      on_is_ok = omega arith;
      fixed_once = omega arith;
      missing_once = omega arith;
    }

start-IsSound :
    (responds : ℕ → Bool) (read : ℕ → Option ℕ) (fixed : List ℕ)
    → IsSound (start responds read fixed)
unfolding start
start-IsSound responds read fixed = sync_ok_channels-IsSound read _ (
    for_each-IsSound move_to_fixed_bad fixed _ move_to_fixed_bad-IsSound
      (scanned-IsSound responds fixed))

state_after-IsSound :
    (s : Hv) (o : Option Reply)
    → IsSound s
    → ((r : Reply) → o ≡ some r → IsSound r.outcome.state)
    → IsSound (state_after s o)
state_after-IsSound s none w k = w
state_after-IsSound s (some r) w k = k r refl

get_or-IsSound :
    (s : Hv) (o : Option Hv)
    → IsSound s
    → ((t : Hv) → o ≡ some t → IsSound t)
    → IsSound (get_or o s)
get_or-IsSound s none w k = w
get_or-IsSound s (some t) w k = k t refl

step-IsSound : (s : Hv) (c : Call) → IsSound s → IsSound (step s c)
unfolding step recover_bad_channels
step-IsSound s (to_ok ch) w = move_to_ok-IsSound ch s w
step-IsSound s (to_bad ch) w = move_to_bad-IsSound ch s w
step-IsSound s (to_on ch) w = move_to_on-IsSound ch s w
step-IsSound s (to_off ch) w = move_to_off-IsSound ch s w
step-IsSound s (to_fixed_bad ch) w = move_to_fixed_bad-IsSound ch s w
step-IsSound s (to_missing_serial ch) w = move_to_missing_serial-IsSound ch s w
step-IsSound s (from_fixed_bad ch) w = remove_from_fixed_bad-IsSound ch s w
step-IsSound s (from_missing_serial ch) w = remove_from_missing_serial-IsSound ch s w
step-IsSound s (set_fixed_bad a) w = get_or-IsSound s _ w (λ t e. set_fixed_bad-IsSound a s t w e)
step-IsSound s (sync read chs) w = sync_power_state-IsSound read chs s w
step-IsSound s (sync_own read) w = sync_ok_channels-IsSound read s w
step-IsSound s (operate k answers a) w =
    state_after-IsSound s _ w (λ r e. command-IsSound k answers a s r w e)
step-IsSound s (recover_bad responds read) w = recover-IsSound responds read s.bad_ch s w
step-IsSound s (ramp_to k c timeout fuel a) w = ramp_and_wait-IsSound k c timeout fuel a s w
step-IsSound s (read_power reads a) w = get_power_state-IsSound reads a s w
step-IsSound s (configure wait_ramp config access c timeout fuel a) w =
    set_acquisition_configuration-IsSound wait_ramp config access c timeout fuel a s w
step-IsSound s (recover_off info check writes c timeout fuel) w =
    recover_ok_off-IsSound info check writes c timeout fuel s w
step-IsSound s (electrical reads a) w = read_channels-IsSound reads a s w
step-IsSound s (status_alarm reads a) w = read_channels-IsSound reads a s w
step-IsSound s (monitor electrics statuses a) w = monitor_snapshot-IsSound electrics statuses a s w
step-IsSound s (check_serials bus boards chs) w = check_missing_serial-IsSound bus boards chs s w
step-IsSound s (new_address before later new standard boards) w =
    change_feb_address-IsSound before later new standard boards s w

run_keeps : (s : Hv) (cs : List Call) → IsSound s → IsSound (run s cs)
unfolding run
run_keeps s [] w = w
run_keeps s (c ∷ cs) w = run_keeps (step s c) cs (step-IsSound s c w)

-- Whatever the hardware answers, at the start and after any calls of the methods no channel is
-- both OK and BAD, none is both on and off, one that is on is OK, and every channel stands at most
-- once in each of the six lists.
pub hv_run-IsSound :
    (responds : ℕ → Bool) (read : ℕ → Option ℕ) (fixed : List ℕ) (cs : List Call)
    → IsSound (run (start responds read fixed) cs)
hv_run-IsSound responds read fixed cs = run_keeps _ cs (start-IsSound responds read fixed)
