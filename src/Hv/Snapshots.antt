-- ===== src/Hv/Snapshots.antt =====
-- What a snapshot of the monitoring tells of each channel, and what it does to the lists
-- (client/hardware/hv/hv_interface.py).
use multi_daq.Prelude.{
  ◌==◌, Bool, true, false, not, Option, none, some, is_some, ℕ, List, [], ◌∷◌, ◌++◌, ◌≡◌, refl, sym,
  ap, ◌∙◌, arith, if◌then◌else◌, ◌&&◌, ◌||◌, select,
}
use multi_daq.Prelude.Numbers.{
  has-count, count-sorted, count-include, sorted, include, has-append, has,
}
use multi_daq.Channels.Definitions.{ChannelsArg, hv_channels_definition}
use multi_daq.Hv.Lists.{Hv, move_to_bad, for_each}
use multi_daq.Hv.Commands.{n_channels}
use multi_daq.Hv.Monitoring.{
  bad, unlisted, state_of, state_lookup, Electrical, StatusAlarm, Report, read_all, read_channels,
  add_skipped, Snapshot, snapshot, monitor_snapshot,
}
use multi_daq.Hv.Reports.{
  entry_of, reported_state, unread, read_all-state, unread-has, read_all-failed, read_all-hv,
  add_skipped-state, has-select, accepted-select,
}

abbrev pub has_reading {ℓ} : {A : Type ℓ} → ℕ → Report A → Bool
has_reading c r = elim (entry_of c r.channels) [ none ↦ false | some e ↦ is_some e.reading ]

-- What a snapshot `x` of the lists `s` tells of the channel `c`.
pub record Observed (c : ℕ) (s : Hv) (requested : List ℕ) (x : Snapshot) : Type 0 where
  pub electrical_state :
      reported_state c x.electrical ≡ (if has c requested then some (state_of c s) else none)
  pub status_state : reported_state c x.status_alarm ≡ (
      if has c requested
      then some (if has c s.fixed_bad then state_of c s else state_of c x.electrical.hv)
      else none)
  pub failed_bad :
      (has c x.electrical.failed_channels && not (has c s.missing_serial)) ≡ true
      → reported_state c x.status_alarm ≡ some bad
  pub fixed_unread :
      (has c s.fixed_bad && (has_reading c x.electrical || has_reading c x.status_alarm)) ≡ false
  pub failed_used :
      (has c (x.electrical.failed_channels ++ x.status_alarm.failed_channels)
        && not (has c requested && not (has c s.fixed_bad)))
      ≡ false
  pub lists :
      x.channel_lists
      ≡ for_each move_to_bad (x.electrical.failed_channels ++ x.status_alarm.failed_channels) s

-- Where moving channels to BAD leaves a channel.
made_bad :
    (c : ℕ) (chs : List ℕ) (s : Hv)
    → (has c (for_each move_to_bad chs s).bad_ch ≡ (has c chs || has c s.bad_ch))
      × ((for_each move_to_bad chs s).fixed_bad ≡ s.fixed_bad)
      × ((for_each move_to_bad chs s).missing_serial ≡ s.missing_serial)
unfolding for_each has
made_bad c [] s = (refl, refl, refl)
made_bad c (ch ∷ chs) s =
    let (listed, fixed_as, missing_as) = made_bad c chs (move_to_bad ch s) in
    (
      ground (arith, listed, moved_bad),
      fixed_as ∙ unfold move_to_bad in refl,
      missing_as ∙ unfold move_to_bad in refl,
    )
  where
    moved_bad : has c (move_to_bad ch s).bad_ch ≡ (ch == c || has c s.bad_ch)
    moved_bad =
        unfold move_to_bad in
        ground (
          arith,
          has-count c (sorted (include ch s.bad_ch)),
          has-count c s.bad_ch,
          count-sorted c (include ch s.bad_ch),
          count-include c ch s.bad_ch,
        )

for_each-append :
    (xs ys : List ℕ) (s : Hv)
    → for_each move_to_bad ys (for_each move_to_bad xs s) ≡ for_each move_to_bad (xs ++ ys) s
unfolding for_each
for_each-append [] ys s = refl
for_each-append (x ∷ xs) ys s = for_each-append xs ys (move_to_bad x s)

module _ (electrics : ℕ → Option Electrical) (statuses : ℕ → Option StatusAlarm)
    (requested : List ℕ) (s : Hv) where
  used : List ℕ
  used = select (λ ch. not (has ch s.fixed_bad)) requested

  abbrev started_from {ℓ} : {A : Type ℓ} → Hv → Report A
  started_from t = record { hv = t; failed_channels = []; channels = [] }

  first_part : Report Electrical
  unfolding used
  first_part = read_all electrics (state_lookup used s) 0 used (started_from s)

  second_part : Report StatusAlarm
  unfolding used
  second_part =
      read_all statuses (state_lookup used first_part.hv) 0 used (started_from first_part.hv)

  taken : Snapshot
  unfolding first_part second_part
  taken = snapshot requested s first_part second_part

  monitor_snapshot-taken :
      (a : ChannelsArg)
      → hv_channels_definition a n_channels ≡ some requested
      → monitor_snapshot electrics statuses a s ≡ some taken
  unfolding monitor_snapshot read_channels taken
  monitor_snapshot-taken a e =
      ground (arith, e, accepted-select (λ ch. not (has ch s.fixed_bad)) a requested e)

  lookup_lem :
      (chs : List ℕ) (t : Hv) (c : ℕ)
      → state_lookup chs t c ≡ (if has c chs then state_of c t else unlisted)
  unfolding state_lookup
  lookup_lem chs t c = refl

  -- A part of the snapshot, when the lists are `t` before it.
  abbrev part {ℓ} : {A : Type ℓ} → (ℕ → Option A) → Hv → Report A
  part reads t =
      let r = read_all reads (state_lookup used t) 0 used (started_from t) in
      record r {
        channels =
            add_skipped (state_lookup requested s) (select (λ ch. has ch s.fixed_bad) requested)
              r.channels;
      }

  part_entry {ℓ} :
      {A : Type ℓ} (reads : ℕ → Option A) (t : Hv) (c : ℕ)
      → entry_of c (part reads t).channels ≡ (
          if has c requested && has c s.fixed_bad
          then some (record { reading = none; state = state_lookup requested s c })
          else entry_of c (read_all reads (state_lookup used t) 0 used (started_from t)).channels)
  part_entry reads t c = ground (
    arith,
    add_skipped-state (state_lookup requested s) c (select (λ ch. has ch s.fixed_bad) requested)
        (read_all reads (state_lookup used t) 0 used (started_from t)).channels,
    has-select (λ ch. has ch s.fixed_bad) c requested,
  )

  unread_state {ℓ} :
      {A : Type ℓ} (reads : ℕ → Option A) (t : Hv) (c : ℕ)
      → reported_state c (read_all reads (state_lookup used t) 0 used (started_from t))
        ≡ (if has c requested && not (has c s.fixed_bad) then some (state_of c t) else none)
  unfolding used entry_of
  unread_state reads t c = ground (
    arith,
    read_all-state reads (state_lookup used t) c 0 used (started_from t),
    has-select (λ ch. not (has ch s.fixed_bad)) c requested,
    lookup_lem used t c,
  )

  part-state {ℓ} :
      {A : Type ℓ} (reads : ℕ → Option A) (t : Hv) (c : ℕ)
      → reported_state c (part reads t) ≡ (
          if has c requested
          then some (if has c s.fixed_bad then state_of c s else state_of c t)
          else none)
  part-state reads t c =
      ground (arith, part_entry reads t c, unread_state reads t c, lookup_lem requested s c)

  part-has_reading {ℓ} :
      {A : Type ℓ} (reads : ℕ → Option A) (t : Hv) (c : ℕ)
      → (has c s.fixed_bad && has_reading c (part reads t)) ≡ false
  part-has_reading reads t c = ground (arith, part_entry reads t c, unread_state reads t c)

  first_moves : first_part.hv ≡ for_each move_to_bad first_part.failed_channels s
  unfolding first_part
  first_moves =
      read_all-hv electrics (state_lookup used s) 0 used (started_from s)
      ∙ ap (λ chs. for_each move_to_bad chs s)
          (sym (read_all-failed electrics (state_lookup used s) 0 used (started_from s)))

  second_moves : second_part.hv ≡ for_each move_to_bad second_part.failed_channels first_part.hv
  unfolding second_part
  second_moves =
      read_all-hv statuses (state_lookup used first_part.hv) 0 used (started_from first_part.hv)
      ∙ ap (λ chs. for_each move_to_bad chs first_part.hv)
          (sym (
            read_all-failed statuses (state_lookup used first_part.hv) 0 used
              (started_from first_part.hv)))

  failed_used_lem :
      (c : ℕ)
      → (has c (first_part.failed_channels ++ second_part.failed_channels)
          && not (has c requested && not (has c s.fixed_bad)))
        ≡ false
  unfolding first_part second_part used
  failed_used_lem c = ground (
    arith,
    has-append c (unread electrics 0 used) (unread statuses 0 used),
    read_all-failed electrics (state_lookup used s) 0 used (started_from s),
    read_all-failed statuses (state_lookup used first_part.hv) 0 used (started_from first_part.hv),
    unread-has electrics c 0 used,
    unread-has statuses c 0 used,
    has-select (λ ch. not (has ch s.fixed_bad)) c requested,
  )

  -- A channel that fails in the electrical readings is used, and BAD afterwards.
  failed_state :
      (c : ℕ)
      → (has c first_part.failed_channels && not (has c s.missing_serial)) ≡ true
      → (has c requested ≡ true) × (has c s.fixed_bad ≡ false) × (state_of c first_part.hv ≡ bad)
  unfolding state_of
  failed_state c f =
      let (listed, fixed_as, missing_as) = made_bad c first_part.failed_channels s in
      let h = first_moves in
      let used_one = failed_used_lem c in
      let in_both = has-append c first_part.failed_channels second_part.failed_channels in
      let is_bad : has c first_part.hv.bad_ch ≡ true =
        ap (λ t. has c t.bad_ch) h ∙ ground (arith, listed, f) in
      let is_fixed : has c first_part.hv.fixed_bad ≡ has c s.fixed_bad =
        ap (λ t. has c t.fixed_bad) h ∙ ap (has c) fixed_as in
      let is_missing : has c first_part.hv.missing_serial ≡ has c s.missing_serial =
        ap (λ t. has c t.missing_serial) h ∙ ap (has c) missing_as in
      (
        ground (arith, used_one, in_both, f),
        ground (arith, used_one, in_both, f),
        ground (arith, used_one, in_both, f, is_bad, is_fixed, is_missing),
      )

  failed_bad_lem :
      (c : ℕ)
      → (has c first_part.failed_channels && not (has c s.missing_serial)) ≡ true
      → reported_state c (part statuses first_part.hv) ≡ some bad
  failed_bad_lem c f =
      let (asked, not_fixed, state) = failed_state c f in
      ground (arith, part-state statuses first_part.hv c, asked, not_fixed, state)

  taken-Observed : (c : ℕ) → Observed c s requested taken
  unfolding taken snapshot first_part second_part
  taken-Observed c = record {
    electrical_state =
        part-state electrics s c ∙ same_branches (has c s.fixed_bad) (has c requested);
    status_state = part-state statuses first_part.hv c;
    failed_bad = failed_bad_lem c;
    fixed_unread =
        ground (arith, part-has_reading electrics s c, part-has_reading statuses first_part.hv c);
    failed_used = failed_used_lem c;
    lists =
        second_moves
        ∙ ap (for_each move_to_bad second_part.failed_channels) first_moves
        ∙ for_each-append first_part.failed_channels second_part.failed_channels s;
  }
    where
      same_branches :
          (b d : Bool)
          → (if d then some (if b then state_of c s else state_of c s) else none)
            ≡ (if d then some (state_of c s) else none)
      same_branches true d = refl
      same_branches false d = refl

-- `monitor_snapshot` of channels that are accepted returns a snapshot. Both parts have an entry for a
-- channel exactly if it is requested: with its state before the call, except that a channel that is not
-- fixed BAD has in the part on status and alarm its state after the electrical readings; one that
-- failed there is BAD in that part, unless it is listed as missing a serial number. A channel that is
-- fixed BAD is never read and never fails. The lists afterwards are those before with the channels moved
-- to BAD that failed in one part or the other, which are requested channels.
pub snapshot-Observed :
    (electrics : ℕ → Option Electrical) (statuses : ℕ → Option StatusAlarm) (a : ChannelsArg)
    (requested : List ℕ) (s : Hv)
    → hv_channels_definition a n_channels ≡ some requested
    → (x : Snapshot) × (monitor_snapshot electrics statuses a s ≡ some x)
      × ((c : ℕ) → Observed c s requested x)
snapshot-Observed electrics statuses a requested s e = (
  taken electrics statuses requested s,
  monitor_snapshot-taken electrics statuses requested s a e,
  taken-Observed electrics statuses requested s,
)
