-- ===== src/Hv/KeptByOthers.antt =====
-- `get_power_state`, `set_acquisition_configuration` and `recover_ok_off_acquisition` keep the lists of
-- HV sound (client/hardware/hv/hv_interface.py).
use multi_daq.Prelude.{
  Bool, true, false, Option, none, some, map_option, ℕ, suc, ◌+◌, ◌-◌, List, [], ◌∷◌, if◌then◌else◌,
  is_empty, select, map,
}
use multi_daq.Prelude.Numbers.{has, sorted}
use multi_daq.Prelude.Int.{pos}
use multi_daq.Channels.Definitions.{ChannelsArg, sequence, integer, hv_channels_definition}
use multi_daq.Hv.Lists.{Hv, move_to_bad, get_ok_off_channels}
use multi_daq.Hv.Commands.{n_channels}
use multi_daq.Hv.Invariant.{
  IsSound, move_to_bad-IsSound, move_to_on-IsSound, move_to_off-IsSound, for_each-IsSound,
}
use multi_daq.Hv.Ramps.{switch_on, Course, RampResult, out_of_fuel, replied, ramp_and_wait}
use multi_daq.Hv.PowerState.{
  Reads, PowerState, is_on, is_off, tripped, moving, unknown, unreadable, settle_power, note_power,
  power_states, PowerReply, no_power, get_power_state,
}
use multi_daq.Hv.AcqConfiguration.{
  AcqConfig, Access, Configured, unconfigured, configured, Setting, note_configured,
  configure_channel, configure_all, or_config, no_setting, drop_failed, end_ramps, wait_ramp_end,
  end_wait, add_all, end_result, set_configuration, set_acquisition_configuration, ChannelConfig,
  RampEnd,
}
use multi_daq.Hv.OkOffRecovery.{
  Check, Preparation, prepare_channel, prepare_all, is_complete, stored_config, OkOffReply, powered,
  nothing_done, power_safe, recover_ok_off_acquisition, check_all,
}
use multi_daq.Hv.KeptByRamps.{or_state, ramp_state, ramp_and_wait-IsSound}

note_power-IsSound :
    (p : PowerState) (ch : ℕ) (r : PowerReply) → IsSound r.hv → IsSound (note_power p ch r).hv
note_power-IsSound is_on ch r i = move_to_on-IsSound ch r.hv i
note_power-IsSound is_off ch r i = move_to_off-IsSound ch r.hv i
note_power-IsSound tripped ch r i = move_to_bad-IsSound ch r.hv i
note_power-IsSound unreadable ch r i = move_to_bad-IsSound ch r.hv i
note_power-IsSound moving ch r i = i
note_power-IsSound unknown ch r i = i

power_states-IsSound :
    (reads : ℕ → Reads) (n : ℕ) (chs : List ℕ) (r : PowerReply)
    → IsSound r.hv
    → IsSound (power_states reads n chs r).hv
unfolding power_states
power_states-IsSound reads n [] r i = i
power_states-IsSound reads n (ch ∷ chs) r i =
    let p = settle_power (reads n).before (reads n).last in
    power_states-IsSound reads (suc n) chs (note_power p ch r) (note_power-IsSound p ch r i)

pub get_power_state-IsSound :
    (reads : ℕ → Reads) (a : ChannelsArg) (s : Hv)
    → IsSound s
    → IsSound (or_state (λ r. r.hv) s (get_power_state reads a s))
unfolding get_power_state
get_power_state-IsSound reads a s i = by_channels (hv_channels_definition a n_channels)
  where
    by_channels :
        (o : Option (List ℕ))
        → IsSound
            (or_state (λ r. r.hv) s (map_option (λ chs. power_states reads 0 chs (no_power s)) o))
    by_channels none = i
    by_channels (some chs) = power_states-IsSound reads 0 chs (no_power s) i

note_configured-IsSound :
    (on : List ℕ) (x : Configured) (ch : ℕ) (r : Setting)
    → IsSound r.hv
    → IsSound (note_configured on x ch r).hv
note_configured-IsSound on unconfigured ch r i = i
note_configured-IsSound on Configured.raised ch r i = move_to_bad-IsSound ch r.hv i
note_configured-IsSound on (configured before after) ch r i = i

configure_all-IsSound :
    (on : List ℕ) (config : AcqConfig) (access : ℕ → Access) (n : ℕ) (chs : List ℕ) (r : Setting)
    → IsSound r.hv
    → IsSound (configure_all on config access n chs r).hv
unfolding configure_all
configure_all-IsSound on config access n [] r i = i
configure_all-IsSound on config access n (ch ∷ chs) r i =
    let x =
      configure_channel (or_config (config.by_number (ch - 1)) (config.by_text (ch - 1)))
        (access n) in
    configure_all-IsSound on config access (suc n) chs (note_configured on x ch r)
      (note_configured-IsSound on x ch r i)

end_ramps-IsSound :
    (c : Course) (timeout fuel : ℕ) (r : Setting) (s : Hv)
    → IsSound s
    → IsSound r.hv
    → IsSound (or_state (λ x. x.hv) s (end_ramps c timeout fuel r))
unfolding wait_ramp_end
end_ramps-IsSound c timeout fuel r s j i =
    by_ramps (is_empty r.ramping)
      (end_wait c (c.started + timeout) fuel 0 (record { pending = r.ramping; failed = [] }))
  where
    by_ramps :
        (b : Bool) (o : Option RampEnd)
        → IsSound (
            or_state
              (λ x. x.hv)
              s
              (if b then some r else map_option (drop_failed r) (map_option (end_result r.hv) o)))
    by_ramps true o = i
    by_ramps false none = j
    by_ramps false (some w) =
        for_each-IsSound move_to_bad (add_all w.pending w.failed) r.hv move_to_bad-IsSound i

pub set_acquisition_configuration-IsSound :
    (wait_ramp : Bool) (config : AcqConfig) (access : ℕ → Access) (c : Course) (timeout fuel : ℕ)
    (a : ChannelsArg) (s : Hv)
    → IsSound s
    → IsSound (
        or_state
          (λ x. x.hv)
          s
          (set_acquisition_configuration wait_ramp config access c timeout fuel a s))
unfolding set_acquisition_configuration set_configuration
set_acquisition_configuration-IsSound wait_ramp config access c timeout fuel a s i =
    by_channels (hv_channels_definition a n_channels)
  where
    by_channels :
        (o : Option (List ℕ))
        → IsSound (
            or_state
              (λ x. x.hv)
              s
              (elim o [
                | none ↦ none
                | some chs ↦ set_configuration wait_ramp config access c timeout fuel chs s
              ]))
    by_channels none = i
    by_channels (some chs) = end_ramps-IsSound c timeout fuel _ s i (
        configure_all-IsSound (if wait_ramp then s.on_ch else []) config access 0
          (select (λ ch. has ch s.ok_ch) chs) (no_setting s) i)

prepare_channel-IsSound :
    (b d : Bool) (ch : ℕ) (r : Preparation) → IsSound r.hv → IsSound (prepare_channel b d ch r).hv
prepare_channel-IsSound false d ch r i = i
prepare_channel-IsSound true true ch r i = i
prepare_channel-IsSound true false ch r i = move_to_bad-IsSound ch r.hv i

prepare_all-IsSound :
    (info : List (ℕ × ChannelConfig)) (writes : ℕ → Bool) (n : ℕ) (chs : List ℕ) (r : Preparation)
    → IsSound r.hv
    → IsSound (prepare_all info writes n chs r).hv
unfolding prepare_all
prepare_all-IsSound info writes n [] r i = i
prepare_all-IsSound info writes n (ch ∷ chs) r i =
    let x = is_complete (stored_config ch info) in
    prepare_all-IsSound info writes (suc n) chs (prepare_channel x (writes n) ch r)
      (prepare_channel-IsSound x (writes n) ch r i)

power_safe-IsSound :
    (c : Course) (timeout fuel : ℕ) (checked safe : List ℕ) (r : Preparation)
    → IsSound r.hv
    → IsSound (power_safe c timeout fuel checked safe r).0
power_safe-IsSound c timeout fuel checked safe r i =
    by_safe (is_empty safe)
      (ramp_and_wait switch_on c timeout fuel (sequence (map (λ ch. integer (pos ch)) safe)) r.hv)
      (ramp_and_wait-IsSound switch_on c timeout fuel (sequence (map (λ ch. integer (pos ch)) safe))
        r.hv i)
  where
    by_safe :
        (b : Bool) (x : RampResult)
        → IsSound (ramp_state r.hv x)
        → IsSound (if b then nothing_done checked r.failed r.hv else powered checked safe r x).0
    by_safe true x h = i
    by_safe false RampResult.raised h = i
    by_safe false out_of_fuel h = i
    by_safe false (replied p) h = h

pub recover_ok_off-IsSound :
    (info : List (ℕ × ChannelConfig)) (check : ℕ → Check) (writes : ℕ → Bool) (c : Course)
    (timeout fuel : ℕ) (s : Hv)
    → IsSound s
    → IsSound (recover_ok_off_acquisition info check writes c timeout fuel s).0
unfolding recover_ok_off_acquisition
recover_ok_off-IsSound info check writes c timeout fuel s i =
    by_lists (is_empty channels) (is_empty info)
  where
    channels : List ℕ
    channels = sorted (get_ok_off_channels s)

    found : List ℕ × List ℕ
    found = check_all check 0 channels

    last : Hv × Option OkOffReply
    last =
        power_safe c timeout fuel channels found.0
          (prepare_all info writes 0 found.0 (record { hv = s; failed = found.1 }))

    by_lists :
        (b d : Bool)
        → IsSound
            (if b
              then nothing_done [] [] s
              else if d
              then nothing_done channels channels s
              else last).0
    by_lists true d = i
    by_lists false true = i
    by_lists false false =
        power_safe-IsSound c timeout fuel channels found.0 _
          (prepare_all-IsSound info writes 0 found.0 (record { hv = s; failed = found.1 }) i)
