-- ===== src/Hv/KeptByRamps.antt =====
-- The methods of HV that wait for ramps keep its lists sound (client/hardware/hv/hv_interface.py).
use multi_daq.Prelude.{
  Bool, true, false, not, Option, none, some, map_option, ℕ, zero, suc, ◌+◌, List, [], ◌∷◌, ◌++◌,
  ◌≡◌, refl, if◌then◌else◌, ◌||◌, ltb, is_empty, select,
}
use mathlib.Core.Path.{subst}
use multi_daq.Prelude.Numbers.{has}
use multi_daq.Channels.Definitions.{ChannelsArg, hv_channels_definition}
use multi_daq.Hv.Lists.{Hv}
use multi_daq.Hv.Commands.{n_channels}
use multi_daq.Hv.Invariant.{IsSound, move_to_bad-IsSound, move_to_on-IsSound, move_to_off-IsSound}
use multi_daq.Hv.Ramps.{
  Ramp, switch_on, switch_off, Reading, Course, Verdict, reached, waiting, failure, judge, arrive,
  Wait, turn, round, wait, command_all, time_out, fail_channel, always_shuts, to_wait_for, idle,
  RampReply, RampResult, raised, out_of_fuel, replied, ramp, ramp_and_wait, after_wait, ramp_reply,
  result_of,
}

-- The lists that a result leaves; a call without a result leaves them as they were.
abbrev pub or_state {ℓ} : {A : Type ℓ} → (A → Hv) → Hv → Option A → Hv
or_state f s none = s
or_state f s (some a) = f a

abbrev pub ramp_state : Hv → RampResult → Hv
ramp_state s raised = s
ramp_state s out_of_fuel = s
ramp_state s (replied r) = r.hv

pub or_state-map :
    {A B : Type 0} (f : B → Hv) (g : A → B) (s : Hv) (o : Option A)
    → or_state (λ a. f (g a)) s o ≡ or_state f s (map_option g o)
or_state-map f g s none = refl
or_state-map f g s (some a) = refl

-- A result that depends on another one.
pub or_state-IsSound :
    {A : Type 0} (f : A → Hv) (g : A → Hv) (s : Hv) (o : Option A)
    → ((a : A) → IsSound (f a) → IsSound (g a))
    → IsSound s
    → IsSound (or_state f s o)
    → IsSound (or_state g s o)
or_state-IsSound f g s none k i w = i
or_state-IsSound f g s (some a) k i w = k a w

module _ (k : Ramp) where
  arrive-IsSound : (ch : ℕ) (s : Hv) → IsSound s → IsSound (arrive k ch s)
  arrive-IsSound ch s w = by_ramp k
    where
      by_ramp : (k : Ramp) → IsSound (arrive k ch s)
      by_ramp switch_on = move_to_on-IsSound ch s w
      by_ramp switch_off = move_to_off-IsSound ch s w

  turn-IsSound : (v : Verdict) (ch : ℕ) (w : Wait) → IsSound w.hv → IsSound (turn k v ch w).hv
  turn-IsSound waiting ch w i = i
  turn-IsSound reached ch w i = arrive-IsSound ch w.hv i
  turn-IsSound (failure b) ch w i = move_to_bad-IsSound ch w.hv i

  round-IsSound :
      (reading : ℕ → Reading) (n : ℕ) (chs : List ℕ) (w : Wait)
      → IsSound w.hv
      → IsSound (round k reading n chs w).hv
  unfolding round
  round-IsSound reading n [] w i = i
  round-IsSound reading n (ch ∷ chs) w i =
      round-IsSound reading (suc n) chs (turn k (judge k (reading n)) ch w)
        (turn-IsSound (judge k (reading n)) ch w i)

  wait-IsSound :
      (c : Course) (deadline fuel n : ℕ) (w : Wait) (s : Hv)
      → IsSound s
      → IsSound w.hv
      → IsSound (or_state (λ x. x.hv) s (wait k c deadline fuel n w))
  unfolding wait
  wait-IsSound c deadline zero n w s j i = j
  wait-IsSound c deadline (suc fuel) n w s j i =
      if_state (is_empty w.pending || not (ltb (c.clock n) deadline)) (
        wait-IsSound c deadline fuel (suc n) (round k (c.reading n) 0 w.pending w) s j
          (round-IsSound (c.reading n) 0 w.pending w i))
    where
      if_state :
          (b : Bool)
          → IsSound (
              or_state
                (λ x. x.hv)
                s
                (wait k c deadline fuel (suc n) (round k (c.reading n) 0 w.pending w)))
          → IsSound (
              or_state
                (λ x. x.hv)
                s
                (if b
                  then some w
                  else wait k c deadline fuel (suc n) (round k (c.reading n) 0 w.pending w)))
      if_state true more = i
      if_state false more = more

  command_all-IsSound :
      (accepts : ℕ → Bool) (n : ℕ) (chs : List ℕ) (w : Wait)
      → IsSound w.hv
      → IsSound (command_all k accepts n chs w).hv
  unfolding command_all
  command_all-IsSound accepts n [] w i = i
  command_all-IsSound accepts n (ch ∷ chs) w i =
      command_all-IsSound accepts (suc n) chs
        (if accepts n
          then record w { pending = w.pending ++ ch ∷ [] }
          else fail_channel (always_shuts k) ch w)
        (one (accepts n))
    where
      one :
          (b : Bool)
          → IsSound
              (if b
                then record w { pending = w.pending ++ ch ∷ [] }
                else fail_channel (always_shuts k) ch w).hv
      one true = i
      one false = move_to_bad-IsSound ch w.hv i

  time_out-IsSound : (chs : List ℕ) (w : Wait) → IsSound w.hv → IsSound (time_out k chs w).hv
  unfolding time_out
  time_out-IsSound [] w i = i
  time_out-IsSound (ch ∷ chs) w i =
      time_out-IsSound chs (fail_channel (always_shuts k) ch w) (move_to_bad-IsSound ch w.hv i)

  ramp-IsSound :
      (c : Course) (timeout fuel : ℕ) (requested : List ℕ) (s : Hv)
      → IsSound s
      → IsSound (or_state (λ r. r.hv) s (ramp k c timeout fuel requested s))
  unfolding ramp
  ramp-IsSound c timeout fuel requested s i =
      let used = select (λ ch. has ch s.ok_ch) requested in
      let first = to_wait_for (command_all k c.accepts 0 used (idle s)) in
      let o = wait k c (c.started + timeout) fuel 0 first in
      subst IsSound
        (or_state-map (λ r. r.hv)
          (λ w.
            ramp_reply requested used (select (λ ch. not (has ch s.ok_ch)) requested)
              (after_wait k w))
          s o)
        (or_state-IsSound (λ x. x.hv) (λ x. (after_wait k x).hv) s o
          (λ x j. time_out-IsSound x.pending x j) i
          (wait-IsSound c (c.started + timeout) fuel 0 first s i
            (command_all-IsSound c.accepts 0 used (idle s) i)))

  pub ramp_and_wait-IsSound :
      (c : Course) (timeout fuel : ℕ) (a : ChannelsArg) (s : Hv)
      → IsSound s
      → IsSound (ramp_state s (ramp_and_wait k c timeout fuel a s))
  unfolding ramp_and_wait
  ramp_and_wait-IsSound c timeout fuel a s i = by_channels (hv_channels_definition a n_channels)
    where
      of_result :
          (o : Option RampReply)
          → IsSound (or_state (λ r. r.hv) s o)
          → IsSound (ramp_state s (result_of o))
      of_result none j = j
      of_result (some r) j = j

      by_channels :
          (o : Option (List ℕ))
          → IsSound (
              ramp_state s
                (elim o [ none ↦ raised | some chs ↦ result_of (ramp k c timeout fuel chs s) ]))
      by_channels none = i
      by_channels (some chs) =
          of_result (ramp k c timeout fuel chs s) (ramp-IsSound c timeout fuel chs s i)
