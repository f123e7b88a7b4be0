-- ===== src/Hv/FixedBad.antt =====
-- What `set_fixed_bad_channels` does to every channel (client/hardware/hv/hv_interface.py).
use multi_daq.Prelude.{
  Bool, true, false, some, ℕ, ◌≤◌, List, [], ◌∷◌, ◌≡◌, refl, arith, leb, if◌then◌else◌,
}
use multi_daq.Prelude.Numbers.{count, has, bit, has-count, sorted, minus, count-sorted, count-minus}
use multi_daq.Channels.Definitions.{ChannelsArg, hv_channels_definition}
use multi_daq.Hv.Lists.{Hv, for_each, move_to_fixed_bad, remove_from_fixed_bad, replace_fixed_bad}
use multi_daq.Hv.Commands.{n_channels, set_fixed_bad_channels}
use multi_daq.Hv.Invariant.{IsSound}
use multi_daq.Hv.Counts.{
  Marks, marks, acts, freed, marked_fixed, marks-move_to_fixed_bad, marks-remove_from_fixed_bad,
}

-- A loop over channels that stand once in the list does its work once on each of them.
for_each-marks :
    (c : ℕ) (f : ℕ → Hv → Hv) (g : Marks → Marks) (chs : List ℕ) (s : Hv)
    → ((ch : ℕ) (t : Hv) → marks c (f ch t) ≡ acts ch c g (marks c t))
    → count c chs ≤ 1
    → marks c (for_each f chs s) ≡ (if leb 1 (count c chs) then g (marks c s) else marks c s)
unfolding for_each count
for_each-marks c f g [] s k d = refl
for_each-marks c f g (ch ∷ chs) s k d = ground (arith, for_each-marks c f g chs (f ch s) k, k ch s)

-- What becomes of a channel: it is fixed BAD if it is in the new list, and leaves the other lists
-- when it enters; it is BAD and off when it is freed; else nothing changes.
abbrev pub refixed : Bool → Bool → Marks → Marks
refixed true true m = m
refixed true false m = marked_fixed m
refixed false true m = freed m
refixed false false m = m

replace_fixed_bad-marks :
    (c : ℕ) (chs : List ℕ) (s : Hv)
    → marks c (replace_fixed_bad chs s) ≡ refixed (has c chs) (has c s.fixed_bad) (marks c s)
unfolding replace_fixed_bad
replace_fixed_bad-marks c chs s =
    let removed = sorted (minus s.fixed_bad chs) in
    let added = sorted (minus chs s.fixed_bad) in
    let t = for_each remove_from_fixed_bad removed s in
    ground (
      arith,
      count-sorted c (minus s.fixed_bad chs),
      count-minus c s.fixed_bad chs,
      count-sorted c (minus chs s.fixed_bad),
      count-minus c chs s.fixed_bad,
      for_each-marks c remove_from_fixed_bad freed removed s (marks-remove_from_fixed_bad c),
      for_each-marks c move_to_fixed_bad marked_fixed added t (marks-move_to_fixed_bad c),
    )

-- After an accepted `set_fixed_bad_channels` on lists that are sound, the fixed BAD channels are the
-- given ones, once each. A channel that enters the list leaves the OK, BAD, on and off lists; one that
-- leaves it is BAD and off; no other channel changes.
pub fixed_bad_replaced :
    (a : ChannelsArg) (s t : Hv) (chs : List ℕ) (c : ℕ)
    → IsSound s
    → hv_channels_definition a n_channels ≡ some chs
    → set_fixed_bad_channels a s ≡ some t
    → (count c t.fixed_bad ≡ bit (has c chs))
      × (marks c t ≡ refixed (has c chs) (has c s.fixed_bad) (marks c s))
unfolding set_fixed_bad_channels
fixed_bad_replaced a s t chs c w d e =
    ground (arith, replace_fixed_bad-marks c chs s, (w c).fixed_once, has-count c s.fixed_bad)
