-- ===== src/Hv/Trimmed.antt =====
-- What stripping leaves of the text of a serial number (client/hardware/hv/hv_interface.py).
use multi_daq.Prelude.{
  some, none, Bool, true, false, not, ℕ, List, [], ◌∷◌, ◌++◌, ◌≡◌, refl, sym, ap, ◌∙◌, arith,
  if◌then◌else◌, ◌&&◌, ◌||◌, is_empty, Bool-cases, inl, inr,
}
use multi_daq.Prelude.Text.{is_space}
use multi_daq.Board.Serials.{Codes}
use multi_daq.Board.Access.{Bus, HvModbus, member}
use multi_daq.Hv.Lists.{Hv, for_each, move_to_missing_serial}
use mathlib.Core.Path.{subst}
use multi_daq.Hv.Serials.{
  serial_at, get_serial_map, check_missing_serial, zero_text, normalized, pmt_serial, maps_agree,
  member-check_missing_serial, lstrip, rstrip, is_nul, normalize_serial, has_no_serial,
}

unfoldable pub all : (ℕ → Bool) → Codes → Bool
all p [] = true
all p (c ∷ cs) = p c && all p cs

unfoldable pub some_is : (ℕ → Bool) → Codes → Bool
some_is p [] = false
some_is p (c ∷ cs) = p c || some_is p cs

abbrev pub first_is : (ℕ → Bool) → Codes → Bool
first_is p [] = false
first_is p (c ∷ cs) = p c

unfoldable pub last_is : (ℕ → Bool) → Codes → Bool
last_is p [] = false
last_is p (c ∷ cs) = let rest = last_is p cs in if is_empty cs then p c else rest

empty-append : (t w : Codes) → is_empty t ≡ true → t ++ w ≡ w
unfolding is_empty
empty-append [] w e = refl
empty-append (c ∷ cs) w e = ground arith

some_is-is_empty : (q : ℕ → Bool) (t : Codes) → some_is q t ≡ true → is_empty t ≡ false
unfolding some_is is_empty
some_is-is_empty q [] e = ground arith
some_is-is_empty q (c ∷ cs) e = refl

module _ (p : ℕ → Bool) where
  rstrip_split :
      (t : Codes)
      → (w : Codes) × (t ≡ rstrip p t ++ w) × (all p w ≡ true) × (last_is p (rstrip p t) ≡ false)
  unfolding rstrip all last_is
  rstrip_split [] = ([], refl, refl, refl)
  rstrip_split (c ∷ cs) =
      let (w, e, a, l) = rstrip_split cs in
      elim (Bool-cases (is_empty (rstrip p cs) && p c)) [
        | inl cut ↦ (
          c ∷ w,
          rw cut (ap (λ x. c ∷ x) (e ∙ empty-append (rstrip p cs) w (ground (arith, cut)))),
          ground (arith, cut, a),
          ground (arith, cut),
        )
        | inr kept ↦ (w, rw kept (ap (λ x. c ∷ x) e), a, ground (arith, kept, l))
      ]

  lstrip_split :
      (t : Codes)
      → (w : Codes) × (t ≡ w ++ lstrip p t) × (all p w ≡ true) × (first_is p (lstrip p t) ≡ false)
  unfolding lstrip all
  lstrip_split [] = ([], refl, refl, refl)
  lstrip_split (c ∷ cs) =
      let (w, e, a, l) = lstrip_split cs in
      elim (Bool-cases (p c)) [
        | inl cut ↦
            (c ∷ w, rw cut (ap (λ x. c ∷ x) e), ground (arith, cut, a), ground (arith, cut, l))
        | inr kept ↦ ([], ground (arith, kept), refl, ground (arith, kept))
      ]

  last_is-lstrip : (q : ℕ → Bool) (t : Codes) → last_is q t ≡ false → last_is q (lstrip p t) ≡ false
  unfolding lstrip last_is is_empty
  last_is-lstrip q [] e = e
  last_is-lstrip q (c ∷ []) e = ground arith
  last_is-lstrip q (c ∷ d ∷ ds) e = ground (arith, last_is-lstrip q (d ∷ ds))

  some_is-lstrip :
      (q : ℕ → Bool) (t : Codes)
      → ((c : ℕ) → q c ≡ true → p c ≡ false)
      → some_is q t ≡ true
      → some_is q (lstrip p t) ≡ true
  unfolding lstrip some_is
  some_is-lstrip q [] h e = e
  some_is-lstrip q (c ∷ cs) h e = ground (arith, h c, some_is-lstrip q cs h)

  some_is-rstrip :
      (q : ℕ → Bool) (t : Codes)
      → ((c : ℕ) → q c ≡ true → p c ≡ false)
      → some_is q t ≡ true
      → some_is q (rstrip p t) ≡ true
  unfolding rstrip some_is
  some_is-rstrip q [] h e = e
  some_is-rstrip q (c ∷ cs) h e =
      ground (arith, h c, some_is-rstrip q cs h, some_is-is_empty q (rstrip p cs))

-- `r` is the text `t` without NUL at its end, and then without blanks at its ends.
pub record IsTrimmed (t r : Codes) : Type 0 where
  pub before : Codes
  pub after : Codes
  pub nuls : Codes
  pub parts : t ≡ (before ++ r ++ after) ++ nuls
  pub before_blank : all is_space before ≡ true
  pub after_blank : all is_space after ≡ true
  pub nuls_nul : all is_nul nuls ≡ true
  pub cut : last_is is_nul (before ++ r ++ after) ≡ false
  pub starts : first_is is_space r ≡ false
  pub ends : last_is is_space r ≡ false

normalize_serial-IsTrimmed : (t : Codes) → IsTrimmed t (normalize_serial t)
unfolding normalize_serial
normalize_serial-IsTrimmed t =
    let v = rstrip is_nul t in
    let u = rstrip is_space v in
    let (nuls, e, n, last_nul) = rstrip_split is_nul t in
    let (after, f, a, last_blank) = rstrip_split is_space v in
    let (before, g, b, first_blank) = lstrip_split is_space u in
    let whole : v ≡ before ++ lstrip is_space u ++ after = f ∙ ap (λ x. x ++ after) g in
    record {
      before = before;
      after = after;
      nuls = nuls;
      parts = e ∙ ap (λ x. x ++ nuls) whole;
      before_blank = b;
      after_blank = a;
      nuls_nul = n;
      cut = ap (last_is is_nul) (sym whole) ∙ last_nul;
      starts = first_blank;
      ends = last_is-lstrip is_space is_space u last_blank;
    }

-- Neither blank nor NUL.
abbrev pub is_visible : ℕ → Bool
is_visible c = not (is_nul c) && not (is_space c)

visible-has_no_serial : (t : Codes) → some_is is_visible t ≡ true → has_no_serial t ≡ false
unfolding has_no_serial
visible-has_no_serial t e = some_is-is_empty is_visible _ (
    some_is-lstrip is_space is_visible _ (λ c h. ground (arith, h))
      (some_is-rstrip is_space is_visible _ (λ c h. ground (arith, h))
        (some_is-lstrip is_nul is_visible _ (λ c h. ground (arith, h))
          (some_is-rstrip is_nul is_visible t (λ c h. ground (arith, h)) e))))

-- `check_missing_serial` and `get_serial_map` agree on any list of channels: the map has an entry for a
-- channel exactly if the channel is in the list, and the entry is "0" if the channel is reported as
-- missing a serial number, and otherwise the text that is read, without the NULs at its end and then
-- without the blanks at its two ends. A channel in whose text a character stands that is neither
-- a blank nor NUL is not reported. The channels that are reported are moved to the list of channels
-- without a serial number, and no others.
pub serials_agree :
    (bus : Bus) (s : HvModbus) (chs : List ℕ) (hv : Hv)
    → ((ch : ℕ)
        → serial_at ch (get_serial_map bus s chs) ≡ (
            if member ch chs
            then some (
                if member ch (check_missing_serial bus s chs hv).0
                then zero_text
                else normalized (pmt_serial bus s ch))
            else none))
      × ((ch : ℕ) (t : Codes)
          → pmt_serial bus s ch ≡ some t
          → IsTrimmed t (normalized (pmt_serial bus s ch)))
      × ((ch : ℕ) (t : Codes)
          → pmt_serial bus s ch ≡ some t
          → some_is is_visible t ≡ true
          → member ch (check_missing_serial bus s chs hv).0 ≡ false)
      × ((check_missing_serial bus s chs hv).1
          ≡ for_each move_to_missing_serial (check_missing_serial bus s chs hv).0 hv)
serials_agree bus s chs hv =
    let (entries, lists) = maps_agree bus s chs hv in
    (
      entries,
      λ ch t e. subst (λ o. IsTrimmed t (normalized o)) (sym e) (normalize_serial-IsTrimmed t),
      λ ch t e v.
          ground (arith, member-check_missing_serial bus s ch chs hv, e, visible-has_no_serial t v),
      lists,
    )
