-- ===== src/Hv/AcqConfiguration.antt =====
-- `set_acquisition_configuration` of HV and the wait for the ramps that it starts, `_wait_ramp_end`
-- (client/hardware/hv/hv_interface.py). Voltages and thresholds are the rounded numbers.
use multi_daq.Prelude.{
  Bool, true, false, not, Option, none, some, map_option, ℕ, zero, suc, ◌+◌, ◌-◌, List, [], ◌∷◌,
  ◌++◌, if◌then◌else◌, ◌&&◌, ◌||◌, ◌==◌, ltb, is_empty, select, get_or,
}
use multi_daq.Prelude.Numbers.{has, include, remove, sorted}
use multi_daq.Channels.Definitions.{ChannelsArg, hv_channels_definition}
use multi_daq.Hv.Lists.{Hv, move_to_bad, for_each}
use multi_daq.Hv.Commands.{n_channels}
use multi_daq.Hv.Ramps.{Reading, Course, Verdict, reached, waiting, failure, judge_on}

-- The channels that are still waited for, and the set of those that failed.
pub record RampEnd : Type 0 where
  pub pending : List ℕ
  pub failed : List ℕ

abbrev pub end_turn : Verdict → ℕ → RampEnd → RampEnd
end_turn waiting ch w = w
end_turn reached ch w = record w { pending = remove ch w.pending }
end_turn (failure b) ch w = record w { failed = include ch w.failed; pending = remove ch w.pending }

unfoldable pub end_round : (ℕ → Reading) → ℕ → List ℕ → RampEnd → RampEnd
end_round reading n [] w = w
end_round reading n (ch ∷ chs) w =
    end_round reading (suc n) chs (end_turn (judge_on (reading n)) ch w)

-- `while pending and time.time() < deadline`; `none` when the fuel runs out.
unfoldable pub end_wait : Course → ℕ → ℕ → ℕ → RampEnd → Option RampEnd
unfolding end_round
end_wait c deadline zero n w = none
end_wait c deadline (suc fuel) n w =
    let rest = end_wait c deadline fuel (suc n) (end_round (c.reading n) 0 w.pending w) in
    if is_empty w.pending || not (ltb (c.clock n) deadline) then some w else rest

-- `failed.add(ch)` for each channel.
unfoldable pub add_all : List ℕ → List ℕ → List ℕ
add_all [] failed = failed
add_all (ch ∷ chs) failed = add_all chs (include ch failed)

abbrev pub end_result : Hv → RampEnd → List ℕ × Hv
end_result s w = let lost = add_all w.pending w.failed in (lost, for_each move_to_bad lost s)

-- The failed channels, which are switched off and BAD.
unfoldable pub wait_ramp_end : Course → ℕ → ℕ → List ℕ → Hv → Option (List ℕ × Hv)
unfolding end_wait add_all
wait_ramp_end c timeout fuel chs s =
    map_option (end_result s)
      (end_wait c (c.started + timeout) fuel 0 (record { pending = chs; failed = [] }))

-- An entry of the configuration; `bare` says that its dictionary is empty.
pub record ChannelConfig : Type 0 where
  pub voltage : Option ℕ
  pub threshold : Option ℕ
  pub bare : Bool

-- `acq_configuration`, by the external number of a channel, as a number and as a text.
pub record AcqConfig : Type 0 where
  pub by_number : ℕ → Option ChannelConfig
  pub by_text : ℕ → Option ChannelConfig

-- `a or b`
abbrev pub or_config : Option ChannelConfig → Option ChannelConfig → Option ChannelConfig
or_config none b = b
or_config (some a) b = if a.bare then b else some a

-- What the accesses to a channel give: the two reads, and whether the two writes go through.
pub record Access : Type 0 where
  pub voltage_set : Option ℕ
  pub threshold_set : Option ℕ
  pub voltage_written : Bool
  pub threshold_written : Bool

pub record Values : Type 0 where
  pub voltage : ℕ
  pub threshold : ℕ

-- How the turn of a channel ends: without a configuration, with an exception, or with the values before
-- and after.
pub data Configured : Type 0 where
  unconfigured raised : Configured
  configured : Values → Values → Configured

abbrev pub is_none : {A : Type 0} → Option A → Bool
is_none none = true
is_none (some a) = false

abbrev pub read_values : ChannelConfig → Access → Option ℕ → Option ℕ → Configured
read_values e a none t = raised
read_values e a (some v) none = raised
read_values e a (some v) (some t) =
    if (is_none e.voltage || a.voltage_written) && (is_none e.threshold || a.threshold_written)
    then configured (record { voltage = v; threshold = t })
        (record { voltage = get_or e.voltage v; threshold = get_or e.threshold t })
    else raised

unfoldable pub configure_channel : Option ChannelConfig → Access → Configured
configure_channel none a = unconfigured
configure_channel (some e) a =
    if is_none e.voltage && is_none e.threshold
    then unconfigured
    else read_values e a a.voltage_set a.threshold_set

-- The lists while the channels are configured. `previous` and `applied` are dictionaries in which a
-- repeated channel keeps its last entry.
pub record Setting : Type 0 where
  pub hv : Hv
  pub successful : List ℕ
  pub failed : List ℕ
  pub previous : List (ℕ × Values)
  pub applied : List (ℕ × Values)
  pub ramping : List ℕ

abbrev pub note_configured : List ℕ → Configured → ℕ → Setting → Setting
note_configured on unconfigured ch r = record r { failed = r.failed ++ ch ∷ [] }
note_configured on raised ch r = record r { failed = r.failed ++ ch ∷ []; hv = move_to_bad ch r.hv }
note_configured on (configured before after) ch r = record r {
  successful = r.successful ++ ch ∷ [];
  previous = r.previous ++ (ch, before) ∷ [];
  applied = r.applied ++ (ch, after) ∷ [];
  ramping =
      if has ch on && not (before.voltage == after.voltage)
      then r.ramping ++ ch ∷ []
      else r.ramping;
}

unfoldable pub configure_all : List ℕ → AcqConfig → (ℕ → Access) → ℕ → List ℕ → Setting → Setting
unfolding configure_channel
configure_all on config access n [] r = r
configure_all on config access n (ch ∷ chs) r = configure_all on config access (suc n) chs (
    note_configured on
      (configure_channel (or_config (config.by_number (ch - 1)) (config.by_text (ch - 1)))
        (access n))
      ch r)

abbrev pub no_setting : Hv → Setting
no_setting s = record {
  hv = s;
  successful = [];
  failed = [];
  previous = [];
  applied = [];
  ramping = [];
}

-- After the wait: the channels that failed in it leave the results.
abbrev pub drop_failed : Setting → List ℕ × Hv → Setting
drop_failed r (lost, s) = record r {
  hv = s;
  successful = select (λ ch. not (has ch lost)) r.successful;
  failed = r.failed ++ sorted lost;
  previous = select (λ e. not (has e.0 lost)) r.previous;
  applied = select (λ e. not (has e.0 lost)) r.applied;
}

abbrev pub end_ramps : Course → ℕ → ℕ → Setting → Option Setting
end_ramps c timeout fuel r =
    if is_empty r.ramping
    then some r
    else map_option (drop_failed r) (wait_ramp_end c timeout fuel r.ramping r.hv)

-- From the normalized channels on.
unfoldable pub set_configuration :
    Bool → AcqConfig → (ℕ → Access) → Course → ℕ → ℕ → List ℕ → Hv → Option Setting
unfolding configure_all wait_ramp_end
set_configuration wait_ramp config access c timeout fuel requested s = end_ramps c timeout fuel (
    configure_all (if wait_ramp then s.on_ch else []) config access 0
      (select (λ ch. has ch s.ok_ch) requested) (no_setting s))

-- `none` when `hv_channels_definition` raises, or the fuel runs out.
unfoldable pub set_acquisition_configuration :
    Bool → AcqConfig → (ℕ → Access) → Course → ℕ → ℕ → ChannelsArg → Hv → Option Setting
unfolding set_configuration
set_acquisition_configuration wait_ramp config access c timeout fuel channels s =
    elim (hv_channels_definition channels n_channels) [
      | none ↦ none
      | some chs ↦ set_configuration wait_ramp config access c timeout fuel chs s
    ]
