-- ===== src/Hv/Replies.antt =====
-- What a reply of HV says of each channel, and what it says is true of the lists afterwards
-- (client/hardware/hv/hv_interface.py).
pub mod Loop
use multi_daq.Prelude.{
  Bool, not, ℕ, suc, ◌≤◌, ◌+◌, List, [], ◌∷◌, ◌≡◌, refl, arith, leb, if◌then◌else◌, Bool-cases, inl,
  inr, some, Option-cases,
}
use mathlib.Core.Path.{subst}
use multi_daq.Prelude.Numbers.{count, has, has-count, count-select}
use multi_daq.Channels.Definitions.{ChannelsArg, hv_channels_definition}
use multi_daq.Hv.Lists.{Hv, move_to_bad}
use multi_daq.Hv.Commands.{
  n_channels, Command, Reply, run_channels, on_ok_channels, on_all_channels, moves, reply_to,
  command,
}
use multi_daq.Hv.Counts.{
  Marks, marks, acts, marked_bad, marked_on, marked_off, marks-move_to_bad, marks-move_to_on,
  marks-move_to_off,
}
use multi_daq.Hv.Invariant.{Sound, IsSound, move_to_bad-IsSound}
use multi_daq.Hv.Kept.{moves-IsSound}
pub use Loop.*

-- What a reply promises of the channel `c`.
pub record Tells (c : ℕ) (k : Command) (s : Hv) (r : Reply) : Type 0 where
  pub used_or_skipped :
      count c r.used_channels + count c r.skipped_channels ≡ count c r.requested_channels
  pub answered_or_failed :
      count c r.outcome.successful + count c r.outcome.failed ≡ count c r.used_channels
  pub lists :
      marks c r.outcome.state
      ≡ told k (count c r.outcome.failed) (count c r.outcome.successful) (marks c s)

module _ (c : ℕ) (k : Command) (answers : ℕ → Bool) (requested : List ℕ) (s : Hv)
    (w : IsSound s) where
  on_ok_channels-Tells : Tells c k s (on_ok_channels (moves k) answers requested s)
  unfolding on_ok_channels
  on_ok_channels-Tells = record {
    used_or_skipped = ground (
      arith,
      count-select c (λ ch. has ch s.ok_ch) requested,
      count-select c (λ ch. not (has ch s.ok_ch)) requested,
    );
    answered_or_failed = count-outcome c k answers 0 _ s;
    lists = told_run c k answers 0 _ s w;
  }

  on_all_channels-Tells : Tells c k s (on_all_channels (moves k) answers requested s)
  unfolding on_all_channels count
  on_all_channels-Tells = record {
    used_or_skipped = ground arith;
    answered_or_failed = count-outcome c k answers 0 requested s;
    lists = told_run c k answers 0 requested s w;
  }

reply_to-Tells :
    (c : ℕ) (k : Command) (answers : ℕ → Bool) (requested : List ℕ) (s : Hv)
    → IsSound s
    → Tells c k s (reply_to k answers requested s)
unfolding reply_to
reply_to-Tells c Command.force_off answers requested s w =
    on_all_channels-Tells c Command.force_off answers requested s w
reply_to-Tells c Command.force_reset answers requested s w =
    on_all_channels-Tells c Command.force_reset answers requested s w
reply_to-Tells c k answers requested s w = on_ok_channels-Tells c k answers requested s w

-- When a command is accepted on sound lists, every requested channel is used or skipped, every
-- used one is successful or failed, and the lists afterwards are what the reply tells: a failed
-- channel is BAD and off, a successful one is where the command puts it, and no other channel has
-- moved.
pub reply-Tells :
    (k : Command) (answers : ℕ → Bool) (a : ChannelsArg) (s : Hv) (r : Reply) (c : ℕ)
    → IsSound s
    → command k answers a s ≡ some r
    → Tells c k s r
unfolding command
reply-Tells k answers a s r c w e = elim (Option-cases (hv_channels_definition a n_channels)) [
  | inl h ↦ ground arith
  | inr (chs, h) ↦ subst (Tells c k s) (reply chs h) (reply_to-Tells c k answers chs s w)
]
  where
    reply :
        (chs : List ℕ)
        → hv_channels_definition a n_channels ≡ some chs
        → reply_to k answers chs s ≡ r
    reply chs h = ground arith
