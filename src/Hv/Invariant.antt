-- ===== src/Hv/Invariant.antt =====
-- What the lists of HV always satisfy (client/hardware/hv/hv_interface.py).
use multi_daq.Prelude.{
  Bool, is_some, if◌then◌else◌, true, false, Option, none, some, map_option, ℕ, ◌+◌, ◌≤◌, List, [],
  ◌∷◌, ◌≡◌, sym, refl, arith, ◌==◌, Bool-cases, inl, inr,
}
use mathlib.Core.Path.{subst}
use multi_daq.Hv.Lists.{
  drop_one, Hv, move_to_ok, move_to_bad, move_to_on, move_to_off, move_to_fixed_bad,
  move_to_missing_serial, remove_from_fixed_bad, remove_from_missing_serial, for_each,
  replace_fixed_bad, Status, status_string, sync_channel, after_reading, sync_power_state,
  sync_shared, sync_ok_channels,
}
use multi_daq.Hv.Counts.{
  Marks, marks, marked_ok, marked_bad, marked_on, marked_off, unlisted, marked_fixed,
  marked_missing, acts, freed, serial_found, marks-move_to_ok, marks-move_to_bad, marks-move_to_on,
  marks-move_to_off, marks-move_to_fixed_bad, marks-move_to_missing_serial,
  marks-remove_from_fixed_bad, marks-remove_from_missing_serial,
}

-- A channel is OK or BAD, and on or off, not both; what is on is OK; it is fixed BAD, or lacks its
-- serial, at most once.
pub record Sound (m : Marks) : Type 0 where
  pub ok_or_bad : m.ok + m.bad ≤ 1
  pub on_or_off : m.on + m.off ≤ 1
  pub on_is_ok : m.on ≤ m.ok
  pub fixed_once : m.fixed ≤ 1
  pub missing_once : m.missing ≤ 1

abbrev pub IsSound : Hv → Type 0
IsSound s = (c : ℕ) → Sound (marks c s)

-- A method that acts on one channel, in a way that keeps `Sound`.
acts-Sound :
    (ch c : ℕ) (f : Marks → Marks) (m : Marks)
    → ((n : Marks) → Sound n → Sound (f n))
    → Sound m
    → Sound (acts ch c f m)
acts-Sound ch c f m k w = elim (Bool-cases (ch == c)) [
  | inl e ↦ subst Sound (acts_here ch c f m e) (k m w)
  | inr e ↦ subst Sound (acts_there ch c f m e) w
]
  where
    acts_here : (ch c : ℕ) (f : Marks → Marks) (m : Marks) → (ch == c) ≡ true → f m ≡ acts ch c f m
    acts_here ch c f m e = rw e

    acts_there : (ch c : ℕ) (f : Marks → Marks) (m : Marks) → (ch == c) ≡ false → m ≡ acts ch c f m
    acts_there ch c f m e = rw e

-- The arithmetic of each method.
module _ (m : Marks) (w : Sound m) where
  marked_ok-Sound : Sound (marked_ok m)
  marked_ok-Sound = record {
    ok_or_bad = ground (arith, w.ok_or_bad);
    on_or_off = ground (arith, w.on_or_off);
    on_is_ok = ground (arith, w.on_is_ok);
    fixed_once = w.fixed_once;
    missing_once = w.missing_once;
  }

  marked_bad-Sound : Sound (marked_bad m)
  marked_bad-Sound = record {
    ok_or_bad = ground (arith, w.ok_or_bad);
    on_or_off = ground (arith, w.on_or_off);
    on_is_ok = ground (arith, w.on_is_ok);
    fixed_once = w.fixed_once;
    missing_once = w.missing_once;
  }

  marked_on-Sound : Sound (marked_on m)
  marked_on-Sound = record {
    ok_or_bad = ground (arith, w.ok_or_bad);
    on_or_off = ground (arith, w.on_or_off);
    on_is_ok = ground (arith, w.on_is_ok);
    fixed_once = ground (arith, w.fixed_once);
    missing_once = ground (arith, w.missing_once);
  }

  marked_off-Sound : Sound (marked_off m)
  marked_off-Sound = record {
    ok_or_bad = w.ok_or_bad;
    on_or_off = ground (arith, w.on_or_off);
    on_is_ok = ground (arith, w.on_is_ok);
    fixed_once = w.fixed_once;
    missing_once = w.missing_once;
  }

  unlisted-Sound : Sound (unlisted m)
  unlisted-Sound = record {
    ok_or_bad = ground (arith, w.ok_or_bad);
    on_or_off = ground (arith, w.on_or_off);
    on_is_ok = ground (arith, w.on_is_ok);
    fixed_once = w.fixed_once;
    missing_once = w.missing_once;
  }

-- Only the count of `fixed`, or of `missing`, differs.
refixed-Sound :
    (m n : Marks)
    → Sound m
    → n ≡ record m { fixed = n.fixed; missing = n.missing }
    → n.fixed ≤ 1
    → n.missing ≤ 1
    → Sound n
refixed-Sound m n w e f g = record {
  ok_or_bad = ground (arith, w.ok_or_bad);
  on_or_off = ground (arith, w.on_or_off);
  on_is_ok = ground (arith, w.on_is_ok);
  fixed_once = f;
  missing_once = g;
}

marked_fixed-Sound : (m : Marks) → Sound m → Sound (marked_fixed m)
marked_fixed-Sound m w =
    refixed-Sound (unlisted m) (marked_fixed m) (unlisted-Sound m w) refl
      (ground (arith, w.fixed_once)) w.missing_once

marked_missing-Sound : (m : Marks) → Sound m → Sound (marked_missing m)
marked_missing-Sound m w =
    refixed-Sound (unlisted m) (marked_missing m) (unlisted-Sound m w) refl w.fixed_once
      (ground (arith, w.missing_once))

freed-Sound : (m : Marks) → Sound m → Sound (freed m)
freed-Sound m w =
    refixed-Sound (marked_bad m) (freed m) (marked_bad-Sound m w) refl
      (ground (arith, w.fixed_once)) w.missing_once

serial_found-Sound : (m : Marks) → Sound m → Sound (serial_found m)
serial_found-Sound m w =
    refixed-Sound (marked_bad m) (serial_found m) (marked_bad-Sound m w) refl w.fixed_once
      (ground (arith, w.missing_once))

module _ (ch : ℕ) (s : Hv) (w : IsSound s) where
  moved-IsSound :
      (f : Marks → Marks) (t : Hv)
      → ((n : Marks) → Sound n → Sound (f n))
      → ((c : ℕ) → marks c t ≡ acts ch c f (marks c s))
      → IsSound t
  moved-IsSound f t k e c = subst Sound (sym (e c)) (acts-Sound ch c f (marks c s) k (w c))

  pub move_to_ok-IsSound : IsSound (move_to_ok ch s)
  move_to_ok-IsSound = moved-IsSound marked_ok _ marked_ok-Sound (λ c. marks-move_to_ok c ch s)

  pub move_to_bad-IsSound : IsSound (move_to_bad ch s)
  move_to_bad-IsSound = moved-IsSound marked_bad _ marked_bad-Sound (λ c. marks-move_to_bad c ch s)

  pub move_to_on-IsSound : IsSound (move_to_on ch s)
  move_to_on-IsSound = moved-IsSound marked_on _ marked_on-Sound (λ c. marks-move_to_on c ch s)

  pub move_to_off-IsSound : IsSound (move_to_off ch s)
  move_to_off-IsSound = moved-IsSound marked_off _ marked_off-Sound (λ c. marks-move_to_off c ch s)

  pub move_to_fixed_bad-IsSound : IsSound (move_to_fixed_bad ch s)
  move_to_fixed_bad-IsSound =
      moved-IsSound marked_fixed _ marked_fixed-Sound (λ c. marks-move_to_fixed_bad c ch s)

  pub move_to_missing_serial-IsSound : IsSound (move_to_missing_serial ch s)
  move_to_missing_serial-IsSound =
      moved-IsSound marked_missing _ marked_missing-Sound (λ c. marks-move_to_missing_serial c ch s)

  pub remove_from_fixed_bad-IsSound : IsSound (remove_from_fixed_bad ch s)
  remove_from_fixed_bad-IsSound =
      moved-IsSound freed _ freed-Sound (λ c. marks-remove_from_fixed_bad c ch s)

  pub remove_from_missing_serial-IsSound : IsSound (remove_from_missing_serial ch s)
  remove_from_missing_serial-IsSound =
      moved-IsSound serial_found _ serial_found-Sound (λ c. marks-remove_from_missing_serial c ch s)

  after_reading-IsSound : (o : Option Status) → IsSound (after_reading o ch s)
  after_reading-IsSound none = move_to_bad-IsSound
  after_reading-IsSound (some Status.up) = move_to_on-IsSound
  after_reading-IsSound (some Status.down) = move_to_off-IsSound
  after_reading-IsSound (some Status.rup) = move_to_off-IsSound
  after_reading-IsSound (some Status.rdn) = move_to_off-IsSound
  after_reading-IsSound (some Status.tup) = move_to_off-IsSound
  after_reading-IsSound (some Status.tdn) = move_to_off-IsSound
  after_reading-IsSound (some Status.trip) = move_to_off-IsSound
  after_reading-IsSound (some Status.undef) = move_to_off-IsSound

  sync_channel-IsSound : (read : ℕ → Option ℕ) → IsSound (sync_channel read ch s)
  unfolding sync_channel
  sync_channel-IsSound read = after_reading-IsSound (map_option status_string (read ch))

-- A loop of moves.
pub for_each-IsSound :
    (f : ℕ → Hv → Hv) (chs : List ℕ) (s : Hv)
    → ((ch : ℕ) (t : Hv) → IsSound t → IsSound (f ch t))
    → IsSound s
    → IsSound (for_each f chs s)
unfolding for_each
for_each-IsSound f [] s k w = w
for_each-IsSound f (ch ∷ chs) s k w = for_each-IsSound f chs (f ch s) k (k ch s w)

pub replace_fixed_bad-IsSound :
    (chs : List ℕ) (s : Hv) → IsSound s → IsSound (replace_fixed_bad chs s)
unfolding replace_fixed_bad
replace_fixed_bad-IsSound chs s w =
    for_each-IsSound move_to_fixed_bad _ _ move_to_fixed_bad-IsSound
      (for_each-IsSound remove_from_fixed_bad _ s remove_from_fixed_bad-IsSound w)

pub sync_power_state-IsSound :
    (read : ℕ → Option ℕ) (chs : List ℕ) (s : Hv)
    → IsSound s
    → IsSound (sync_power_state read chs s)
unfolding sync_power_state
sync_power_state-IsSound read chs s =
    for_each-IsSound (sync_channel read) chs s (λ ch t v. sync_channel-IsSound ch t v read)

sync_shared-IsSound :
    (read : ℕ → Option ℕ) (chs : List ℕ) (s : Hv) → IsSound s → IsSound (sync_shared read chs s)
unfolding sync_shared
sync_shared-IsSound read [] s w = w
sync_shared-IsSound read (ch ∷ chs) s w =
    either (is_some (read ch)) (sync_shared-IsSound read chs (sync_channel read ch s) after)
  where
    after : IsSound (sync_channel read ch s)
    after = sync_channel-IsSound ch s w read

    either :
        (b : Bool)
        → IsSound (sync_shared read chs (sync_channel read ch s))
        → IsSound (
            if b
            then sync_shared read chs (sync_channel read ch s)
            else sync_power_state read (drop_one chs) (sync_channel read ch s))
    either true v = v
    either false v = sync_power_state-IsSound read (drop_one chs) (sync_channel read ch s) after

pub sync_ok_channels-IsSound :
    (read : ℕ → Option ℕ) (s : Hv) → IsSound s → IsSound (sync_ok_channels read s)
unfolding sync_ok_channels
sync_ok_channels-IsSound read s w = sync_shared-IsSound read s.ok_ch s w
