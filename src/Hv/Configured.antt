-- ===== src/Hv/Configured.antt =====
-- What `set_acquisition_configuration` reports (client/hardware/hv/hv_interface.py).
mod Turns
mod RampEnds
use Turns.{listed_key, listed_key-select, Noted, note_configured-Noted, note_configured-listed}
use RampEnds.{Within, end_wait-Within, has-add_all}
use multi_daq.Prelude.{
  Bool, true, false, not, Option, none, some, map_option, ℕ, zero, suc, ◌+◌, ◌-◌, ◌*◌, ◌≤◌, List,
  [], ◌∷◌, ◌++◌, ◌≡◌, ◌⊎◌, refl, sym, ap, ◌∙◌, arith, if◌then◌else◌, ◌||◌, ◌&&◌, ◌==◌, ==_iff, ltb,
  leb, is_empty, select, Bool-cases, Option-cases, inl, inr,
}
use multi_daq.Prelude.Numbers.{
  has-append, count, has, has-count, count-append, count-sorted, count-select, count-include,
  count-remove, include, sorted, remove,
}
use multi_daq.Channels.Definitions.{ChannelsArg, hv_channels_definition}
use multi_daq.Hv.Lists.{Hv, move_to_bad, for_each}
use multi_daq.Hv.Commands.{n_channels}
use multi_daq.Hv.Ramps.{Course, Reading, Verdict, reached, waiting, failure, judge_on}
use multi_daq.Hv.AcqConfiguration.{
  AcqConfig, Access, Configured, unconfigured, raised, configured, Setting, note_configured, Values,
  configure_channel, configure_all, or_config, no_setting, drop_failed, end_ramps, wait_ramp_end,
  end_wait, end_round, end_turn, add_all, end_result, set_configuration,
  set_acquisition_configuration, ChannelConfig, RampEnd,
}

-- What a reply tells of a channel.
pub record Told (c : ℕ) (chs : List ℕ) (s : Hv) (r : Setting) : Type 0 where
  pub covered : (has c r.successful || has c r.failed) ≡ has c (select (λ ch. has ch s.ok_ch) chs)
  pub previous_listed : listed_key c r.previous ≡ has c r.successful
  pub applied_listed : listed_key c r.applied ≡ has c r.successful

module _ (c : ℕ) where
  configure_all-Noted :
      (on : List ℕ) (config : AcqConfig) (access : ℕ → Access) (n : ℕ) (chs : List ℕ) (r : Setting)
      → Noted c r
      → Noted c (configure_all on config access n chs r)
  unfolding configure_all
  configure_all-Noted on config access n [] r i = i
  configure_all-Noted on config access n (ch ∷ chs) r i =
      let x =
        configure_channel (or_config (config.by_number (ch - 1)) (config.by_text (ch - 1)))
          (access n) in
      configure_all-Noted on config access (suc n) chs (note_configured on x ch r)
        (note_configured-Noted on c ch r x i)

  configure_all-listed :
      (on : List ℕ) (config : AcqConfig) (access : ℕ → Access) (n : ℕ) (chs : List ℕ) (r : Setting)
      → (has c (configure_all on config access n chs r).successful
          || has c (configure_all on config access n chs r).failed)
        ≡ (has c r.successful || has c r.failed || has c chs)
  unfolding configure_all has
  configure_all-listed on config access n [] r = ground arith
  configure_all-listed on config access n (ch ∷ chs) r =
      let x =
        configure_channel (or_config (config.by_number (ch - 1)) (config.by_text (ch - 1)))
          (access n) in
      ground (
        arith,
        configure_all-listed on config access (suc n) chs (note_configured on x ch r),
        note_configured-listed on c ch r x,
      )

  has-kept :
      (lost xs : List ℕ)
      → has c (select (λ ch. not (has ch lost)) xs) ≡ (has c xs && not (has c lost))
  has-kept lost xs = ground (
    arith,
    has-count c (select (λ ch. not (has ch lost)) xs),
    has-count c xs,
    count-select c (λ ch. not (has ch lost)) xs,
  )

  drop_failed-Told :
      (chs lost : List ℕ) (s t : Hv) (r : Setting)
      → (has c r.successful || has c r.failed) ≡ has c (select (λ ch. has ch s.ok_ch) chs)
      → Noted c r
      → (has c lost ≡ true → has c r.ramping ≡ true)
      → Told c chs s (drop_failed r (lost, t))
  drop_failed-Told chs lost s t r h n l = record {
    covered = ground (
      arith,
      h,
      has-kept lost r.successful,
      has-append c r.failed (sorted lost),
      has-count c (sorted lost),
      count-sorted c lost,
      has-count c lost,
      l,
      n.ramped,
    );
    previous_listed =
        ground (
          arith,
          n.dictionaries.0,
          has-kept lost r.successful,
          listed_key-select c lost r.previous,
        );
    applied_listed =
        ground
          (arith, n.dictionaries.1, has-kept lost r.successful, listed_key-select c lost r.applied);
  }

  end_ramps-Told :
      (course : Course) (timeout pause rounds : ℕ) (chs : List ℕ) (s : Hv) (r : Setting)
      → course.started ≤ course.clock 0
      → ((i : ℕ) → course.clock i + pause ≤ course.clock (suc i))
      → timeout ≤ rounds * pause
      → (has c r.successful || has c r.failed) ≡ has c (select (λ ch. has ch s.ok_ch) chs)
      → Noted c r
      → (x : Setting) × (end_ramps course timeout (suc rounds) r ≡ some x) × Told c chs s x
  unfolding wait_ramp_end has
  end_ramps-Told course timeout pause rounds chs s r early step enough h n =
      elim (Bool-cases (is_empty r.ramping)) [
        | inl e ↦ (
          r,
          rw e refl,
          record {
            covered = h;
            previous_listed = n.dictionaries.0;
            applied_listed = n.dictionaries.1;
          },
        )
        | inr e ↦
            let start : RampEnd = record { pending = r.ramping; failed = [] } in
            let (x, f, w) =
              end_wait-Within c (has c r.ramping) course (course.started + timeout) pause rounds 0
                start step (omega (arith, early, enough))
                (record { waited = λ g. g; lost = λ g. ground (arith, g) }) in
            let lost = add_all x.pending x.failed in
            (
              drop_failed r (end_result r.hv x),
              ground (arith, e, f),
              drop_failed-Told chs lost s (for_each move_to_bad lost r.hv) r h n
                  (λ g. ground (arith, g, has-add_all c x.pending x.failed, w.waited, w.lost)),
            )
      ]

-- With a pause between rounds, enough rounds end every configuration of valid channels. Then each
-- channel that is used is reported as successful or as failed, and no other one is; and the values
-- before and after are reported for exactly the channels that are reported as successful.
pub configuration_ends :
    (wait_ramp : Bool) (config : AcqConfig) (access : ℕ → Access) (course : Course)
    (timeout pause rounds : ℕ) (a : ChannelsArg) (chs : List ℕ) (s : Hv) (c : ℕ)
    → hv_channels_definition a n_channels ≡ some chs
    → course.started ≤ course.clock 0
    → ((i : ℕ) → course.clock i + pause ≤ course.clock (suc i))
    → timeout ≤ rounds * pause
    → (r : Setting) × (set_acquisition_configuration wait_ramp config access course timeout
          (suc rounds)
          a
          s
        ≡ some r)
      × Told c chs s r
unfolding set_acquisition_configuration set_configuration has listed_key
configuration_ends wait_ramp config access course timeout pause rounds a chs s c e early step
      enough =
    let used = select (λ ch. has ch s.ok_ch) chs in
    let on = if wait_ramp then s.on_ch else [] in
    let first = configure_all on config access 0 used (no_setting s) in
    let (r, f, told) =
      end_ramps-Told c course timeout pause rounds chs s first early step enough
        (configure_all-listed c on config access 0 used (no_setting s))
        (configure_all-Noted c on config access 0 used (no_setting s)
          (record { dictionaries = (refl, refl); ramped = λ h. h })) in
    (r, ground (arith, e, f), told)
