-- ===== src/Hv/Ramps/Track.antt =====
-- What a wait for ramps keeps track of, as one channel sees it
-- (client/hardware/hv/hv_interface.py).
use multi_daq.Prelude.{
  Bool, true, false, none, some, ℕ, suc, ◌+◌, ◌≤◌, List, [], ◌∷◌, ◌++◌, ◌≡◌, refl, ap, ◌∙◌, arith,
  ◌==◌, Bool-cases, inl, inr,
}
use multi_daq.Prelude.Numbers.{count, count-append, count-remove}
use multi_daq.Hv.Lists.{Hv, Status}
use multi_daq.Hv.Commands.{Command}
use multi_daq.Hv.Counts.{
  Marks, marks, acts, marked_bad, marks-move_to_bad, marks-move_to_on, marks-move_to_off,
}
use multi_daq.Hv.Invariant.{
  Sound, IsSound, move_to_bad-IsSound, move_to_on-IsSound, move_to_off-IsSound,
}
use multi_daq.Hv.Replies.Loop.{
  marked, down, told, marked_bad-down, down-marked, marked_twice, marked-down,
}
use multi_daq.Hv.Ramps.{
  Ramp, switch_on, switch_off, Verdict, reached, waiting, failure, Wait, turn, fail_channel, arrive,
  Reading, judge, judge_on, always_shuts, shut_if,
}

-- The command that moves a channel in the same way.
abbrev pub plain : Ramp → Command
plain switch_on = Command.on
plain switch_off = Command.off

-- How often a channel stands in one of the lists of the wait.
abbrev pub total : ℕ → Wait → ℕ
total c w = count c w.pending + count c w.arrived + count c w.failed

-- The lists of channels agree with the lists of the wait; `m` is the channel before the call.
pub record Tracks (k : Ramp) (c : ℕ) (m : Marks) (w : Wait) : Type 0 where
  pub sound : IsSound w.hv
  pub agrees : marks c w.hv ≡ told (plain k) (count c w.failed) (count c w.arrived) m
  pub safe : always_shuts k ≡ true → count c w.shut ≡ count c w.failed

-- What fails is reset and switched off where every failure is.
abbrev pub Shuts : Ramp → Verdict → Type 0
Shuts k v = (b : Bool) → v ≡ failure b → always_shuts k ≡ true → b ≡ true

pub judge-Shuts : (k : Ramp) (r : Reading) → Shuts k (judge k r)
unfolding judge_on
judge-Shuts switch_off r b e h = ground arith
judge-Shuts switch_on none b e h = ground arith
judge-Shuts switch_on (some (Status.up, alarm)) b e h = ground arith
judge-Shuts switch_on (some (Status.trip, alarm)) b e h = ground arith
judge-Shuts switch_on (some (Status.down, alarm)) b e h = ground arith
judge-Shuts switch_on (some (Status.rup, alarm)) b e h = ground arith
judge-Shuts switch_on (some (Status.rdn, alarm)) b e h = ground arith
judge-Shuts switch_on (some (Status.tup, alarm)) b e h = ground arith
judge-Shuts switch_on (some (Status.tdn, alarm)) b e h = ground arith
judge-Shuts switch_on (some (Status.undef, alarm)) b e h = ground arith

module _ (k : Ramp) (c : ℕ) (m : Marks) where
  arrived_told :
      (f g : ℕ) → Sound m → marked (plain k) (told (plain k) f g m) ≡ told (plain k) f (suc g) m
  arrived_told f g w =
      ground
        (arith, marked-down c (plain k) (λ n. true) m, marked_twice c (plain k) (λ n. true) m w)

  failed_told :
      (f g : ℕ) (n : Marks)
      → Sound n
      → n ≡ told (plain k) f g m
      → marked_bad n ≡ told (plain k) (suc f) g m
  failed_told f g n w e = marked_bad-down n w ∙ ap down e ∙ down_told ∙ failed_once
    where
      down_told : down (told (plain k) f g m) ≡ down m
      down_told = ground (arith, down-marked c (plain k) (λ n. true) m)

      failed_once : down m ≡ told (plain k) (suc f) g m
      failed_once = ground arith

  marks-arrive :
      (ch : ℕ) (s : Hv) → marks c (arrive k ch s) ≡ acts ch c (marked (plain k)) (marks c s)
  marks-arrive ch s = by_ramp k
    where
      by_ramp : (k : Ramp) → marks c (arrive k ch s) ≡ acts ch c (marked (plain k)) (marks c s)
      by_ramp switch_on = marks-move_to_on c ch s
      by_ramp switch_off = marks-move_to_off c ch s

  arrive-IsSound : (ch : ℕ) (s : Hv) → IsSound s → IsSound (arrive k ch s)
  arrive-IsSound ch s w = by_ramp k
    where
      by_ramp : (k : Ramp) → IsSound (arrive k ch s)
      by_ramp switch_on = move_to_on-IsSound ch s w
      by_ramp switch_off = move_to_off-IsSound ch s w

  module _ (s : Sound m) (ch : ℕ) (w : Wait) (t : Tracks k c m w) where
    shut_if-count :
        (b : Bool)
        → b ≡ true
        → count c w.shut ≡ count c w.failed
        → count c (shut_if b ch w.shut) ≡ count c (w.failed ++ ch ∷ [])
    shut_if-count true e h =
        ground (arith, count-append c w.shut (ch ∷ []), count-append c w.failed (ch ∷ []), h)
    shut_if-count false e h = ground (arith, e)

    pub fail_channel-Tracks :
        (b : Bool) → (always_shuts k ≡ true → b ≡ true) → Tracks k c m (fail_channel b ch w)
    unfolding count
    fail_channel-Tracks b shuts = record {
      safe = λ h. shut_if-count b (shuts h) (t.safe h);
      sound = move_to_bad-IsSound ch w.hv t.sound;
      agrees = elim (Bool-cases (ch == c)) [
        | inl e ↦ ground (
          arith,
          e,
          marks-move_to_bad c ch w.hv,
          count-append c w.failed (ch ∷ []),
          failed_told (count c w.failed) (count c w.arrived) (marks c w.hv) (t.sound c) t.agrees,
        )
        | inr e ↦
            ground
              (arith, e, marks-move_to_bad c ch w.hv, count-append c w.failed (ch ∷ []), t.agrees)
      ];
    }

    pub turn-Tracks : (v : Verdict) → Shuts k v → Tracks k c m (turn k v ch w)
    unfolding count
    turn-Tracks waiting shuts = t
    turn-Tracks (failure b) shuts =
        let f = fail_channel-Tracks b (shuts b refl) in
        record { sound = f.sound; agrees = f.agrees; safe = f.safe }
    turn-Tracks reached shuts = record {
      safe = t.safe;
      sound = arrive-IsSound ch w.hv t.sound;
      agrees = elim (Bool-cases (ch == c)) [
        | inl e ↦ ground (
          arith,
          e,
          marks-arrive ch w.hv,
          count-append c w.arrived (ch ∷ []),
          t.agrees,
          arrived_told (count c w.failed) (count c w.arrived) s,
        )
        | inr e ↦
            ground (arith, e, marks-arrive ch w.hv, count-append c w.arrived (ch ∷ []), t.agrees)
      ];
    }

-- A turn for a pending channel loses no channel, and takes that channel out at most.
module _ (k : Ramp) (c ch : ℕ) (w : Wait) (rest : List ℕ) where
  pub turn-total :
      (v : Verdict)
      → count c (ch ∷ rest) ≤ count c w.pending
      → (total c (turn k v ch w) ≡ total c w) × (count c rest ≤ count c (turn k v ch w).pending)
  unfolding count
  turn-total waiting h = (refl, ground (arith, h))
  turn-total reached h = (
    ground (arith, h, count-remove c ch w.pending, count-append c w.arrived (ch ∷ [])),
    ground (arith, h, count-remove c ch w.pending),
  )
  turn-total (failure b) h = (
    ground (arith, h, count-remove c ch w.pending, count-append c w.failed (ch ∷ [])),
    ground (arith, h, count-remove c ch w.pending),
  )
