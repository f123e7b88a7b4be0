-- ===== src/Hv/Kept.antt =====
-- The commands of HV keep its lists sound (client/hardware/hv/hv_interface.py).
use multi_daq.Prelude.{
  Bool, true, false, Option, none, some, ℕ, suc, List, [], ◌∷◌, ◌≡◌, refl, sym, arith,
  if◌then◌else◌, Option-cases, inl, inr,
}
use mathlib.Core.Path.{subst}
use multi_daq.Channels.Definitions.{ChannelsArg, hv_channels_definition}
use multi_daq.Hv.Lists.{Hv, move_to_ok, move_to_bad, replace_fixed_bad, Status}
use multi_daq.Hv.Commands.{
  n_channels, Command, Reply, run_channels, on_ok_channels, on_all_channels, moves, reply_to,
  command, set_fixed_bad_channels, recover, recover_channel, checked_status, Recovery,
  note_recovered,
}
use multi_daq.Hv.Invariant.{
  IsSound, move_to_ok-IsSound, move_to_bad-IsSound, move_to_on-IsSound, move_to_off-IsSound,
  replace_fixed_bad-IsSound,
}

pub if-IsSound : (b : Bool) (s t : Hv) → IsSound s → IsSound t → IsSound (if b then s else t)
if-IsSound true s t v w = v
if-IsSound false s t v w = w

pub moves-IsSound : (k : Command) (ch : ℕ) (s : Hv) → IsSound s → IsSound (moves k ch s)
unfolding moves
moves-IsSound Command.on ch s w = move_to_on-IsSound ch s w
moves-IsSound Command.off ch s w = move_to_off-IsSound ch s w
moves-IsSound Command.force_off ch s w = move_to_off-IsSound ch s w
moves-IsSound _ ch s w = w

run_channels-IsSound :
    (k : Command) (answers : ℕ → Bool) (n : ℕ) (chs : List ℕ) (s : Hv)
    → IsSound s
    → IsSound (run_channels (moves k) answers n chs s).state
unfolding run_channels
run_channels-IsSound k answers n [] s w = w
run_channels-IsSound k answers n (ch ∷ chs) s w =
    run_channels-IsSound k answers (suc n) chs
      (if answers n then moves k ch s else move_to_bad ch s)
      (if-IsSound (answers n) _ _ (moves-IsSound k ch s w) (move_to_bad-IsSound ch s w))

pub reply_to-IsSound :
    (k : Command) (answers : ℕ → Bool) (chs : List ℕ) (s : Hv)
    → IsSound s
    → IsSound (reply_to k answers chs s).outcome.state
unfolding reply_to on_ok_channels on_all_channels
reply_to-IsSound Command.force_off answers chs s w =
    run_channels-IsSound Command.force_off answers 0 chs s w
reply_to-IsSound Command.force_reset answers chs s w =
    run_channels-IsSound Command.force_reset answers 0 chs s w
reply_to-IsSound k answers chs s w = run_channels-IsSound k answers 0 _ s w

pub recover_channel-IsSound :
    (a : Option Status) (ch : ℕ) (s : Hv) → IsSound s → IsSound (recover_channel a ch s)
recover_channel-IsSound none ch s w = w
recover_channel-IsSound (some a) ch s w = recovered a
  where
    ok : IsSound (move_to_ok ch s)
    ok = move_to_ok-IsSound ch s w

    recovered : (a : Status) → IsSound (recover_channel (some a) ch s)
    recovered Status.up = move_to_on-IsSound ch _ ok
    recovered Status.down = move_to_off-IsSound ch _ ok
    recovered Status.rup = move_to_off-IsSound ch _ ok
    recovered Status.rdn = move_to_off-IsSound ch _ ok
    recovered Status.tup = move_to_off-IsSound ch _ ok
    recovered Status.tdn = move_to_off-IsSound ch _ ok
    recovered Status.trip = move_to_off-IsSound ch _ ok
    recovered Status.undef = move_to_off-IsSound ch _ ok

note_recovered-state :
    (a : Option Status) (ch : ℕ) (r : Recovery) → (note_recovered a ch r).state ≡ r.state
note_recovered-state none ch r = refl
note_recovered-state (some a) ch r = ground arith

pub recover-IsSound :
    (responds : ℕ → Bool) (read : ℕ → Option ℕ) (chs : List ℕ) (s : Hv)
    → IsSound s
    → IsSound (recover responds read chs s).state
unfolding recover
recover-IsSound responds read [] s w = w
recover-IsSound responds read (ch ∷ chs) s w =
    let a = checked_status responds read ch in
    subst IsSound (sym (note_recovered-state a ch _))
      (recover-IsSound responds read chs _ (recover_channel-IsSound a ch s w))

pub command-IsSound :
    (k : Command) (answers : ℕ → Bool) (a : ChannelsArg) (s : Hv) (r : Reply)
    → IsSound s
    → command k answers a s ≡ some r
    → IsSound r.outcome.state
unfolding command
command-IsSound k answers a s r w e = elim (Option-cases (hv_channels_definition a n_channels)) [
  | inl h ↦ ground arith
  | inr (chs, h) ↦
      subst (λ r. IsSound r.outcome.state) (reply chs h) (reply_to-IsSound k answers chs s w)
]
  where
    reply :
        (chs : List ℕ)
        → hv_channels_definition a n_channels ≡ some chs
        → reply_to k answers chs s ≡ r
    reply chs h = ground arith

pub set_fixed_bad-IsSound :
    (a : ChannelsArg) (s t : Hv) → IsSound s → set_fixed_bad_channels a s ≡ some t → IsSound t
unfolding set_fixed_bad_channels
set_fixed_bad-IsSound a s t w e = elim (Option-cases (hv_channels_definition a n_channels)) [
  | inl h ↦ ground arith
  | inr (chs, h) ↦ subst IsSound (replaced chs h) (replace_fixed_bad-IsSound chs s w)
]
  where
    replaced :
        (chs : List ℕ)
        → hv_channels_definition a n_channels ≡ some chs
        → replace_fixed_bad chs s ≡ t
    replaced chs h = ground arith
