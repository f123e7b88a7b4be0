-- ===== src/Hv/Ramps/Ends.antt =====
-- `on_and_wait` and `off_and_wait` end, and what they report (client/hardware/hv/hv_interface.py).
use multi_daq.Prelude.{
  Bool, true, not, some, ℕ, suc, ◌+◌, ◌*◌, ◌≤◌, List, ◌≡◌, refl, arith, if◌then◌else◌, ◌||◌, leb,
  select,
}
use multi_daq.Prelude.Numbers.{
  count, has, has-count, count-sorted, count-set_of, count-select, sorted, set_of,
}
use multi_daq.Channels.Definitions.{ChannelsArg, hv_channels_definition}
use multi_daq.Hv.Lists.{Hv}
use multi_daq.Hv.Commands.{n_channels}
use multi_daq.Hv.Counts.{marks}
use multi_daq.Hv.Invariant.{Sound, IsSound}
use multi_daq.Hv.Replies.Loop.{marked, down}
use multi_daq.Hv.Ramps.{
  Ramp, Course, Wait, RampReply, replied, ramp_and_wait, ramp, ramp_reply, after_wait, to_wait_for,
  command_all, idle, always_shuts,
}
use multi_daq.Hv.Ramps.Track.{Tracks, total, plain}
use multi_daq.Hv.Ramps.Loops.{
  Ended, wait-Ended, command_all-Tracks, command_all-total, time_out-Tracks, time_out-failed,
}

-- What the reply tells of a channel.
pub record Reported (k : Ramp) (c : ℕ) (chs : List ℕ) (s : Hv) (r : RampReply) : Type 0 where
  pub used : r.used_channels ≡ select (λ ch. has ch s.ok_ch) chs
  pub covered : (has c r.successful_channels || has c r.failed_channels) ≡ has c r.used_channels
  pub lists : marks c r.hv ≡ (
      if has c r.failed_channels
      then down (marks c s)
      else if has c r.successful_channels
      then marked (plain k) (marks c s)
      else marks c s)
  pub safe : always_shuts k ≡ true → has c r.failed_channels ≡ has c r.shut

has-sorted : (c : ℕ) (xs : List ℕ) → has c (sorted xs) ≡ leb 1 (count c xs)
has-sorted c xs = ground (arith, has-count c (sorted xs), count-sorted c xs)

has-sorted_set : (c : ℕ) (xs : List ℕ) → has c (sorted (set_of xs)) ≡ leb 1 (count c xs)
has-sorted_set c xs = ground (arith, has-sorted c (set_of xs), count-set_of c xs, has-count c xs)

module _ (k : Ramp) (c : ℕ) where
  -- The channels that are waited for are still accounted for.
  total-to_wait_for : (w : Wait) → leb 1 (total c (to_wait_for w)) ≡ leb 1 (total c w)
  total-to_wait_for w =
      ground (arith, count-select c (λ ch. not (has ch w.failed)) w.pending, has-count c w.failed)

  idle-Tracks : (s : Hv) → IsSound s → Tracks k c (marks c s) (idle s)
  unfolding count
  idle-Tracks s i = record { sound = i; agrees = refl; safe = λ h. refl }

  first-total :
      (accepts : ℕ → Bool) (used : List ℕ) (s : Hv)
      → leb 1 (total c (to_wait_for (command_all k accepts 0 used (idle s)))) ≡ has c used
  unfolding count
  first-total accepts used s = ground (
    arith,
    total-to_wait_for (command_all k accepts 0 used (idle s)),
    command_all-total k c accepts 0 used (idle s),
    has-count c used,
  )

  reply-Reported :
      (chs : List ℕ) (s : Hv) (w x : Wait)
      → let used = select (λ ch. has ch s.ok_ch) chs in
        leb 1 (total c w) ≡ has c used
        → Ended k c (marks c s) w x
        → Sound (marks c s)
        → Reported k c chs s (
            ramp_reply chs
              (select (λ ch. has ch s.ok_ch) chs)
              (select (λ ch. not (has ch s.ok_ch)) chs)
              (after_wait k x))
  reply-Reported chs s w x h e i =
      let t = time_out-Tracks k c (marks c s) i x.pending x e.tracked in
      let f = time_out-failed k c x.pending x in
      let last = after_wait k x in
      record {
        used = refl;
        covered =
            ground
              (arith, h, e.kept, f.0, f.1, has-sorted c last.arrived, has-sorted_set c last.failed);
        lists = rw (has-sorted_set c last.failed, has-sorted c last.arrived) t.agrees;
        safe = λ g. ground (arith, t.safe g, has-sorted_set c last.failed, has-count c last.shut);
      }

-- With a pause between rounds, enough rounds end every call for valid channels. Then each used channel
-- is reported as successful or as failed, and no other one is; a channel that failed is BAD and off,
-- whatever it answered before, one that only succeeded is moved as `moveToOn` or `moveToOff` does, and
-- all others are as before; and `on_and_wait` has tried to switch off exactly the channels that failed.
pub ramp_ends :
    (k : Ramp) (course : Course) (timeout pause rounds : ℕ) (a : ChannelsArg) (chs : List ℕ)
    (s : Hv) (c : ℕ)
    → hv_channels_definition a n_channels ≡ some chs
    → IsSound s
    → course.started ≤ course.clock 0
    → ((i : ℕ) → course.clock i + pause ≤ course.clock (suc i))
    → timeout ≤ rounds * pause
    → (r : RampReply) × (ramp_and_wait k course timeout (suc rounds) a s ≡ replied r)
      × Reported k c chs s r
unfolding ramp_and_wait ramp
ramp_ends k course timeout pause rounds a chs s c e i early step enough =
    let used = select (λ ch. has ch s.ok_ch) chs in
    let first = command_all k course.accepts 0 used (idle s) in
    let tracked =
      command_all-Tracks k c (marks c s) (i c) course.accepts 0 used (idle s)
        (idle-Tracks k c s i) in
    let (x, f, ended) =
      wait-Ended k course (course.started + timeout) pause c (marks c s) (i c) rounds 0
        (to_wait_for first) step (omega (arith, early, enough))
        (record { sound = tracked.sound; agrees = tracked.agrees; safe = tracked.safe }) in
    (
      ramp_reply chs used (select (λ ch. not (has ch s.ok_ch)) chs) (after_wait k x),
      ground (arith, e, f),
      reply-Reported k c chs s (to_wait_for first) x (first-total k c course.accepts used s) ended
          (i c),
    )
