-- ===== src/Hv/Counts.antt =====
-- What the methods of HV do to one channel (client/hardware/hv/hv_interface.py): how often it stands
-- in each list, before and after.
use multi_daq.Prelude.{List, [], ◌∷◌, ◌++◌, ◌+◌, ℕ, ◌≡◌, ◌-◌, arith, if◌then◌else◌, ◌==◌, leb}
use multi_daq.Prelude.Numbers.{
  count, has-count, count-sorted, count-include, count-discard, count-append, sorted, include,
  discard,
}
use multi_daq.Hv.Lists.{
  Hv, move_to_ok, move_to_bad, move_to_on, move_to_off, move_to_fixed_bad, move_to_missing_serial,
  remove_from_fixed_bad, remove_from_missing_serial,
}

-- A channel as the six lists have it.
pub record Marks : Type 0 where
  pub ok : ℕ
  pub bad : ℕ
  pub on : ℕ
  pub off : ℕ
  pub fixed : ℕ
  pub missing : ℕ

abbrev pub marks : ℕ → Hv → Marks
marks c s = record {
  ok = count c s.ok_ch;
  bad = count c s.bad_ch;
  on = count c s.on_ch;
  off = count c s.off_ch;
  fixed = count c s.fixed_bad;
  missing = count c s.missing_serial;
}

abbrev pub some_of : ℕ → ℕ
some_of n = if leb 1 n then n else 1

abbrev pub marked_ok : Marks → Marks
marked_ok m = record m {
  ok = some_of m.ok;
  bad = m.bad - 1;
  off = if leb 1 m.on then m.off else some_of m.off;
}

abbrev pub marked_bad : Marks → Marks
marked_bad m = record m { ok = m.ok - 1; bad = some_of m.bad; on = m.on - 1; off = some_of m.off }

abbrev pub marked_on : Marks → Marks
marked_on m = if leb 1 m.ok then record m { on = some_of m.on; off = m.off - 1 } else m

abbrev pub marked_off : Marks → Marks
marked_off m = record m { on = m.on - 1; off = some_of m.off }

abbrev pub unlisted : Marks → Marks
unlisted m = record m { ok = m.ok - 1; bad = m.bad - 1; on = m.on - 1; off = m.off - 1 }

abbrev pub marked_fixed : Marks → Marks
marked_fixed m = record (unlisted m) { fixed = some_of m.fixed }

abbrev pub marked_missing : Marks → Marks
marked_missing m = record (unlisted m) { missing = some_of m.missing }

-- A method on the channel `ch`, as the channel `c` sees it.
abbrev pub acts : ℕ → ℕ → (Marks → Marks) → Marks → Marks
acts ch c f m = if ch == c then f m else m

module _ (c ch : ℕ) where
  sorted-include :
      (xs : List ℕ)
      → count c (sorted (include ch xs)) ≡ (if ch == c then some_of (count c xs) else count c xs)
  sorted-include xs =
      ground (arith, count-sorted c (include ch xs), count-include c ch xs, has-count c xs)

  sorted-discard :
      (xs : List ℕ)
      → count c (sorted (discard ch xs)) ≡ (if ch == c then count c xs - 1 else count c xs)
  sorted-discard xs = ground (arith, count-sorted c (discard ch xs), count-discard c ch xs)

  plain_include :
      (xs : List ℕ)
      → count c (include ch xs) ≡ (if ch == c then some_of (count c xs) else count c xs)
  plain_include xs = ground (arith, count-include c ch xs, has-count c xs)

  sorted-append :
      (xs : List ℕ)
      → count c (sorted (xs ++ ch ∷ [])) ≡ (if ch == c then count c xs + 1 else count c xs)
  unfolding count
  sorted-append xs = ground (arith, count-sorted c (xs ++ ch ∷ []), count-append c xs (ch ∷ []))

  module _ (s : Hv) where
    pub marks-move_to_ok : marks c (move_to_ok ch s) ≡ acts ch c marked_ok (marks c s)
    unfolding move_to_ok
    marks-move_to_ok = ground (
      arith,
      sorted-include s.ok_ch,
      sorted-discard s.bad_ch,
      sorted-append s.off_ch,
      count-sorted c s.off_ch,
      has-count ch s.off_ch,
      has-count ch s.on_ch,
    )

    pub marks-move_to_bad : marks c (move_to_bad ch s) ≡ acts ch c marked_bad (marks c s)
    unfolding move_to_bad
    marks-move_to_bad = ground (
      arith,
      sorted-discard s.ok_ch,
      sorted-include s.bad_ch,
      sorted-discard s.on_ch,
      sorted-include s.off_ch,
    )

    pub marks-move_to_on : marks c (move_to_on ch s) ≡ acts ch c marked_on (marks c s)
    unfolding move_to_on
    marks-move_to_on =
        ground (arith, has-count ch s.ok_ch, sorted-include s.on_ch, sorted-discard s.off_ch)

    pub marks-move_to_off : marks c (move_to_off ch s) ≡ acts ch c marked_off (marks c s)
    unfolding move_to_off
    marks-move_to_off = ground (arith, sorted-include s.off_ch, sorted-discard s.on_ch)

    pub marks-move_to_fixed_bad :
        marks c (move_to_fixed_bad ch s) ≡ acts ch c marked_fixed (marks c s)
    unfolding move_to_fixed_bad
    marks-move_to_fixed_bad = ground (
      arith,
      sorted-discard s.on_ch,
      sorted-discard s.off_ch,
      sorted-discard s.ok_ch,
      sorted-discard s.bad_ch,
      plain_include s.fixed_bad,
    )

    pub marks-move_to_missing_serial :
        marks c (move_to_missing_serial ch s) ≡ acts ch c marked_missing (marks c s)
    unfolding move_to_missing_serial
    marks-move_to_missing_serial = ground (
      arith,
      sorted-discard s.on_ch,
      sorted-discard s.off_ch,
      sorted-discard s.ok_ch,
      sorted-discard s.bad_ch,
      plain_include s.missing_serial,
    )

abbrev pub freed : Marks → Marks
freed m = marked_bad (record m { fixed = m.fixed - 1 })

abbrev pub serial_found : Marks → Marks
serial_found m = marked_bad (record m { missing = m.missing - 1 })

module _ (c ch : ℕ) (s : Hv) where
  pub marks-remove_from_fixed_bad :
      marks c (remove_from_fixed_bad ch s) ≡ acts ch c freed (marks c s)
  unfolding remove_from_fixed_bad
  marks-remove_from_fixed_bad = ground (
    arith,
    marks-move_to_bad c ch (record s { fixed_bad = discard ch s.fixed_bad }),
    count-discard c ch s.fixed_bad,
  )

  pub marks-remove_from_missing_serial :
      marks c (remove_from_missing_serial ch s) ≡ acts ch c serial_found (marks c s)
  unfolding remove_from_missing_serial
  marks-remove_from_missing_serial = ground (
    arith,
    marks-move_to_bad c ch (record s { missing_serial = discard ch s.missing_serial }),
    count-discard c ch s.missing_serial,
  )
