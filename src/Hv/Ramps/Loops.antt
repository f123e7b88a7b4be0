-- ===== src/Hv/Ramps/Loops.antt =====
-- The loops of a wait for ramps keep track of the channels, and end
-- (client/hardware/hv/hv_interface.py).
use multi_daq.Prelude.{
  Bool, true, false, not, some, ℕ, zero, suc, ◌+◌, ◌*◌, ◌≤◌, List, [], ◌∷◌, ◌++◌, ◌≡◌, refl, ◌∙◌,
  arith, if◌then◌else◌, ◌||◌, ltb, is_empty, Bool-cases, inl, inr,
}
use multi_daq.Prelude.Numbers.{count, count-append}
use multi_daq.Hv.Counts.{Marks}
use multi_daq.Hv.Invariant.{Sound}
use multi_daq.Hv.Ramps.{
  Ramp, Reading, Course, Wait, judge, turn, round, wait, command_all, fail_channel, always_shuts,
  time_out,
}
use multi_daq.Hv.Ramps.Track.{
  total, Tracks, turn-Tracks, turn-total, judge-Shuts, fail_channel-Tracks,
}

module _ (k : Ramp) (c : ℕ) where
  pub round-total :
      (reading : ℕ → Reading) (n : ℕ) (chs : List ℕ) (w : Wait)
      → count c chs ≤ count c w.pending
      → total c (round k reading n chs w) ≡ total c w
  unfolding round
  round-total reading n [] w h = refl
  round-total reading n (ch ∷ chs) w h =
      let t = turn-total k c ch w chs (judge k (reading n)) h in
      round-total reading (suc n) chs (turn k (judge k (reading n)) ch w) t.1 ∙ t.0

  module _ (m : Marks) (s : Sound m) where
    pub round-Tracks :
        (reading : ℕ → Reading) (n : ℕ) (chs : List ℕ) (w : Wait)
        → Tracks k c m w
        → Tracks k c m (round k reading n chs w)
    unfolding round
    round-Tracks reading n [] w t = t
    round-Tracks reading n (ch ∷ chs) w t =
        round-Tracks reading (suc n) chs (turn k (judge k (reading n)) ch w)
          (turn-Tracks k c m s ch w t (judge k (reading n)) (judge-Shuts k (reading n)))

    pub time_out-Tracks :
        (chs : List ℕ) (w : Wait) → Tracks k c m w → Tracks k c m (time_out k chs w)
    unfolding time_out
    time_out-Tracks [] w t = t
    time_out-Tracks (ch ∷ chs) w t =
        time_out-Tracks chs (fail_channel (always_shuts k) ch w)
          (fail_channel-Tracks k c m s ch w t (always_shuts k) (λ h. h))

    pub command_all-Tracks :
        (accepts : ℕ → Bool) (n : ℕ) (chs : List ℕ) (w : Wait)
        → Tracks k c m w
        → Tracks k c m (command_all k accepts n chs w)
    unfolding command_all
    command_all-Tracks accepts n [] w t = t
    command_all-Tracks accepts n (ch ∷ chs) w t =
        command_all-Tracks accepts (suc n) chs _ (one (accepts n))
      where
        one :
            (b : Bool)
            → Tracks k c m (
                if b
                then record w { pending = w.pending ++ ch ∷ [] }
                else fail_channel (always_shuts k) ch w)
        one true = record { sound = t.sound; agrees = t.agrees; safe = t.safe }
        one false = fail_channel-Tracks k c m s ch w t (always_shuts k) (λ h. h)

  pub command_all-total :
      (accepts : ℕ → Bool) (n : ℕ) (chs : List ℕ) (w : Wait)
      → total c (command_all k accepts n chs w) ≡ total c w + count c chs
  unfolding command_all count
  command_all-total accepts n [] w = ground arith
  command_all-total accepts n (ch ∷ chs) w = ground (
    arith,
    command_all-total accepts (suc n) chs (
        if accepts n
        then record w { pending = w.pending ++ ch ∷ [] }
        else fail_channel (always_shuts k) ch w),
    count-append c w.pending (ch ∷ []),
    count-append c w.failed (ch ∷ []),
  )

  pub time_out-failed :
      (chs : List ℕ) (w : Wait)
      → (count c (time_out k chs w).failed ≡ count c w.failed + count c chs)
        × (count c (time_out k chs w).arrived ≡ count c w.arrived)
  unfolding time_out count
  time_out-failed [] w = (ground arith, refl)
  time_out-failed (ch ∷ chs) w =
      let h = time_out-failed chs (fail_channel (always_shuts k) ch w) in
      (ground (arith, h.0, count-append c w.failed (ch ∷ [])), h.1)

-- What holds of a wait that ends with `x`, for a channel `c`.
pub record Ended (k : Ramp) (c : ℕ) (m : Marks) (w x : Wait) : Type 0 where
  pub kept : total c x ≡ total c w
  pub tracked : Tracks k c m x

-- A wait goes on for as long as a channel is pending and the deadline is not reached; with a pause
-- between two rounds, as many rounds are enough as pauses fit into the time that is left.
module _ (k : Ramp) (course : Course) (deadline pause : ℕ) (c : ℕ) (m : Marks) (s : Sound m) where
  pub wait-Ended :
      (fuel n : ℕ) (w : Wait)
      → ((i : ℕ) → course.clock i + pause ≤ course.clock (suc i))
      → deadline ≤ course.clock n + fuel * pause
      → Tracks k c m w
      → (x : Wait) × (wait k course deadline (suc fuel) n w ≡ some x) × Ended k c m w x
  unfolding wait
  wait-Ended zero n w p h t = (w, ground (arith, h), record { kept = refl; tracked = t })
  wait-Ended (suc fuel) n w p h t =
      elim (Bool-cases (is_empty w.pending || not (ltb (course.clock n) deadline))) [
        | inl e ↦ (w, rw e refl, record { kept = refl; tracked = t })
        | inr e ↦
            let w2 = round k (course.reading n) 0 w.pending w in
            let (x, f, y) =
              wait-Ended fuel (suc n) w2 p (omega (arith, h, p n))
                (round-Tracks k c m s (course.reading n) 0 w.pending w t) in
            (
              x,
              rw e f,
              record {
                kept = y.kept ∙ round-total k c (course.reading n) 0 w.pending w (omega arith);
                tracked = y.tracked;
              },
            )
      ]
