-- ===== src/Hv/Configured/RampEnds.antt =====
-- The wait of `_wait_ramp_end` ends, and concerns only its channels
-- (client/hardware/hv/hv_interface.py).
use multi_daq.Prelude.{
  Bool, true, false, not, some, ℕ, zero, suc, ◌+◌, ◌*◌, ◌≤◌, List, [], ◌∷◌, ◌≡◌, ◌⊎◌, refl, arith,
  ◌||◌, ◌==◌, ltb, is_empty, Bool-cases, inl, inr,
}
use multi_daq.Prelude.Numbers.{has, has-count, count-include, count-remove, include, remove}
use multi_daq.Hv.Ramps.{Course, Reading, Verdict, reached, waiting, failure, judge_on}
use multi_daq.Hv.AcqConfiguration.{end_wait, end_round, end_turn, add_all, RampEnd}

-- The channels of a wait are among those that it is for.
pub record Within (c : ℕ) (asked : Bool) (w : RampEnd) : Type 0 where
  pub waited : has c w.pending ≡ true → asked ≡ true
  pub lost : has c w.failed ≡ true → asked ≡ true

module _ (c : ℕ) (asked : Bool) where
  end_turn-Within :
      (v : Verdict) (ch : ℕ) (w : RampEnd)
      → ((ch == c) ≡ true → asked ≡ true)
      → Within c asked w
      → Within c asked (end_turn v ch w)
  end_turn-Within waiting ch w h i = i
  end_turn-Within reached ch w h i = record {
    waited = λ e. i.waited (
        ground (
          arith,
          e,
          has-count c w.pending,
          has-count c (remove ch w.pending),
          count-remove c ch w.pending,
        ));
    lost = i.lost;
  }
  end_turn-Within (failure b) ch w h i = record {
    waited = λ e. i.waited (
        ground (
          arith,
          e,
          has-count c w.pending,
          has-count c (remove ch w.pending),
          count-remove c ch w.pending,
        ));
    lost = λ e. included (Bool-cases (ch == c)) e;
  }
    where
      included :
          ((ch == c) ≡ true) ⊎ ((ch == c) ≡ false)
          → has c (include ch w.failed) ≡ true
          → asked ≡ true
      included (inl g) e = h g
      included (inr g) e = i.lost (
          ground (
            arith,
            e,
            g,
            has-count c w.failed,
            has-count c (include ch w.failed),
            count-include c ch w.failed,
          ))

  end_round-Within :
      (reading : ℕ → Reading) (n : ℕ) (chs : List ℕ) (w : RampEnd)
      → (has c chs ≡ true → asked ≡ true)
      → Within c asked w
      → Within c asked (end_round reading n chs w)
  unfolding end_round has
  end_round-Within reading n [] w h i = i
  end_round-Within reading n (ch ∷ chs) w h i =
      end_round-Within reading (suc n) chs (end_turn (judge_on (reading n)) ch w)
        (λ e. h (ground (arith, e)))
        (end_turn-Within (judge_on (reading n)) ch w (λ e. h (ground (arith, e))) i)

  pub end_wait-Within :
      (course : Course) (deadline pause fuel n : ℕ) (w : RampEnd)
      → ((i : ℕ) → course.clock i + pause ≤ course.clock (suc i))
      → deadline ≤ course.clock n + fuel * pause
      → Within c asked w
      → (x : RampEnd) × (end_wait course deadline (suc fuel) n w ≡ some x) × Within c asked x
  unfolding end_wait
  end_wait-Within course deadline pause zero n w p h i = (w, ground (arith, h), i)
  end_wait-Within course deadline pause (suc fuel) n w p h i =
      elim (Bool-cases (is_empty w.pending || not (ltb (course.clock n) deadline))) [
        | inl e ↦ (w, rw e refl, i)
        | inr e ↦
            let w2 = end_round (course.reading n) 0 w.pending w in
            let (x, f, y) =
              end_wait-Within course deadline pause fuel (suc n) w2 p (omega (arith, h, p n))
                (end_round-Within (course.reading n) 0 w.pending w i.waited i) in
            (x, rw e f, y)
      ]

pub has-add_all : (c : ℕ) (chs xs : List ℕ) → has c (add_all chs xs) ≡ (has c chs || has c xs)
unfolding add_all has
has-add_all c [] xs = refl
has-add_all c (ch ∷ chs) xs = ground (
  arith,
  has-add_all c chs (include ch xs),
  has-count c (include ch xs),
  has-count c xs,
  count-include c ch xs,
)
