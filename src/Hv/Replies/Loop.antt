-- ===== src/Hv/Replies/Loop.antt =====
-- The loop of a command over channels, as one channel sees it
-- (client/hardware/hv/hv_interface.py).
use multi_daq.Prelude.{
  Bool, ℕ, suc, ◌+◌, List, [], ◌∷◌, ◌≡◌, refl, arith, leb, if◌then◌else◌, Bool-cases, inl, inr,
}
use multi_daq.Prelude.Numbers.{count}
use multi_daq.Hv.Lists.{Hv, move_to_bad}
use multi_daq.Hv.Commands.{Command, run_channels, moves}
use multi_daq.Hv.Counts.{
  Marks, marks, acts, marked_bad, marked_on, marked_off, marks-move_to_bad, marks-move_to_on,
  marks-move_to_off,
}
use multi_daq.Hv.Invariant.{Sound, IsSound, move_to_bad-IsSound}
use multi_daq.Hv.Kept.{moves-IsSound}

-- What a command does to a channel that answers.
abbrev pub marked : Command → Marks → Marks
marked Command.on m = marked_on m
marked Command.off m = marked_off m
marked Command.force_off m = marked_off m
marked _ m = m

-- Listed as BAD and off, and nowhere else among the four lists.
abbrev pub down : Marks → Marks
down m = record m { ok = 0; bad = 1; on = 0; off = 1 }

module _ (c : ℕ) (k : Command) (answers : ℕ → Bool) where
  -- Every channel of the loop is either successful or failed.
  pub count-outcome :
      (n : ℕ) (chs : List ℕ) (s : Hv)
      → count c (run_channels (moves k) answers n chs s).successful
          + count c (run_channels (moves k) answers n chs s).failed
        ≡ count c chs
  unfolding run_channels count
  count-outcome n [] s = ground arith
  count-outcome n (ch ∷ chs) s =
      ground
        (arith, count-outcome (suc n) chs (if answers n then moves k ch s else move_to_bad ch s))

  pub marks-moves : (ch : ℕ) (s : Hv) → marks c (moves k ch s) ≡ acts ch c (marked k) (marks c s)
  unfolding moves
  marks-moves ch s = by_command k
    where
      by_command : (k : Command) → marks c (moves k ch s) ≡ acts ch c (marked k) (marks c s)
      by_command Command.on = marks-move_to_on c ch s
      by_command Command.off = marks-move_to_off c ch s
      by_command Command.force_off = marks-move_to_off c ch s
      by_command Command.set_common_voltage = ground arith
      by_command Command.set_common_threshold = ground arith
      by_command Command.get_voltage = ground arith
      by_command Command.get_threshold = ground arith
      by_command Command.get_volt_thr_configuration = ground arith
      by_command Command.get_ch_status = ground arith
      by_command Command.get_ch_alarm = ground arith
      by_command Command.reset = ground arith
      by_command Command.force_reset = ground arith

  pub marked-down : (m : Marks) → marked k (down m) ≡ down m
  marked-down m = by_command k
    where
      by_command : (k : Command) → marked k (down m) ≡ down m
      by_command Command.on = refl
      by_command Command.off = refl
      by_command Command.force_off = refl
      by_command _ = refl

  pub marked_twice : (m : Marks) → Sound m → marked k (marked k m) ≡ marked k m
  marked_twice m w = by_command k
    where
      by_command : (k : Command) → marked k (marked k m) ≡ marked k m
      by_command Command.on = ground (arith, w.on_or_off)
      by_command Command.off = ground (arith, w.on_or_off)
      by_command Command.force_off = ground (arith, w.on_or_off)
      by_command Command.set_common_voltage = refl
      by_command Command.set_common_threshold = refl
      by_command Command.get_voltage = refl
      by_command Command.get_threshold = refl
      by_command Command.get_volt_thr_configuration = refl
      by_command Command.get_ch_status = refl
      by_command Command.get_ch_alarm = refl
      by_command Command.reset = refl
      by_command Command.force_reset = refl

  pub down-marked : (m : Marks) → down (marked k m) ≡ down m
  down-marked m = by_command k
    where
      by_command : (k : Command) → down (marked k m) ≡ down m
      by_command Command.on = ground arith
      by_command Command.off = refl
      by_command Command.force_off = refl
      by_command _ = refl

pub marked_bad-down : (m : Marks) → Sound m → marked_bad m ≡ down m
marked_bad-down m w = ground (arith, w.ok_or_bad, w.on_or_off, w.on_is_ok)

-- A channel after the command, from how often the reply has it as failed and as successful: a channel
-- that failed once is BAD and off, even if it answered at another time.
abbrev pub told : Command → ℕ → ℕ → Marks → Marks
told k failed successful m =
    if leb 1 failed then down m else if leb 1 successful then marked k m else m

module _ (c : ℕ) (k : Command) (answers : ℕ → Bool) where
  told_moved : (f g : ℕ) (m : Marks) → Sound m → told k f g (marked k m) ≡ told k f (suc g) m
  told_moved f g m w = ground (arith, down-marked c k answers m, marked_twice c k answers m w)

  told_failed : (f g : ℕ) (m : Marks) → Sound m → told k f g (marked_bad m) ≡ told k (suc f) g m
  told_failed f g m w = ground (arith, marked_bad-down m w, marked-down c k answers m)

  pub told_run :
      (n : ℕ) (chs : List ℕ) (s : Hv)
      → IsSound s
      → marks c (run_channels (moves k) answers n chs s).state
        ≡ told k
            (count c (run_channels (moves k) answers n chs s).failed)
            (count c (run_channels (moves k) answers n chs s).successful)
            (marks c s)
  unfolding run_channels count
  told_run n [] s w = refl
  told_run n (ch ∷ chs) s w = elim (Bool-cases (answers n)) [
    | inl e ↦ rw e (
        ground (
          arith,
          told_run (suc n) chs (moves k ch s) (moves-IsSound k ch s w),
          marks-moves c k answers ch s,
          told_moved (count c (run_channels (moves k) answers (suc n) chs (moves k ch s)).failed)
              (count c (run_channels (moves k) answers (suc n) chs (moves k ch s)).successful)
              (marks c s) (w c),
        ))
    | inr e ↦ rw e (
        ground (
          arith,
          told_run (suc n) chs (move_to_bad ch s) (move_to_bad-IsSound ch s w),
          marks-move_to_bad c ch s,
          told_failed
              (count c (run_channels (moves k) answers (suc n) chs (move_to_bad ch s)).failed)
              (count c (run_channels (moves k) answers (suc n) chs (move_to_bad ch s)).successful)
              (marks c s) (w c),
        ))
  ]
