-- ===== src/Hv/Configured/Turns.antt =====
-- The turns of the loop of `set_acquisition_configuration`, as one channel sees them
-- (client/hardware/hv/hv_interface.py).
use multi_daq.Prelude.{
  Bool, true, false, not, ℕ, List, [], ◌∷◌, ◌++◌, ◌≡◌, refl, ap, arith, ◌||◌, ◌&&◌, ◌==◌, ==_iff,
  select,
}
use multi_daq.Prelude.Numbers.{has, has-append}
use multi_daq.Hv.AcqConfiguration.{
  Configured, unconfigured, raised, configured, Setting, note_configured, Values,
}

-- `c` among the keys of a dictionary.
unfoldable pub listed_key : ℕ → List (ℕ × Values) → Bool
listed_key c [] = false
listed_key c (e ∷ es) = e.0 == c || listed_key c es

listed_key-append :
    (c : ℕ) (es fs : List (ℕ × Values))
    → listed_key c (es ++ fs) ≡ (listed_key c es || listed_key c fs)
unfolding listed_key
listed_key-append c [] fs = refl
listed_key-append c (e ∷ es) fs = ground (arith, listed_key-append c es fs)

pub listed_key-select :
    (c : ℕ) (lost : List ℕ) (es : List (ℕ × Values))
    → listed_key c (select (λ e. not (has e.0 lost)) es) ≡ (listed_key c es && not (has c lost))
unfolding listed_key select
listed_key-select c lost [] = ground arith
listed_key-select c lost (e ∷ es) = ground (arith, listed_key-select c lost es, same (e.0))
  where
    same : (x : ℕ) → (x == c) ≡ true → has x lost ≡ has c lost
    same x h = ap (λ y. has y lost) ((==_iff x c).0 h)

-- What holds of a channel once the channels up to it are configured.
pub record Noted (c : ℕ) (r : Setting) : Type 0 where
  pub dictionaries :
      (listed_key c r.previous ≡ has c r.successful) × (listed_key c r.applied ≡ has c r.successful)
  pub ramped : has c r.ramping ≡ true → has c r.successful ≡ true

module _ (on : List ℕ) (c ch : ℕ) (r : Setting) where
  pub note_configured-Noted : (x : Configured) → Noted c r → Noted c (note_configured on x ch r)
  unfolding listed_key has
  note_configured-Noted unconfigured n = record { dictionaries = n.dictionaries; ramped = n.ramped }
  note_configured-Noted raised n = record { dictionaries = n.dictionaries; ramped = n.ramped }
  note_configured-Noted (configured before after) n = record {
    dictionaries = (
      ground (
        arith,
        n.dictionaries.0,
        listed_key-append c r.previous ((ch, before) ∷ []),
        has-append c r.successful (ch ∷ []),
      ),
      ground (
        arith,
        n.dictionaries.1,
        listed_key-append c r.applied ((ch, after) ∷ []),
        has-append c r.successful (ch ∷ []),
      ),
    );
    ramped = λ h.
        ground (
          arith,
          n.ramped,
          has-append c r.successful (ch ∷ []),
          has-append c r.ramping (ch ∷ []),
          h,
        );
  }

  pub note_configured-listed :
      (x : Configured)
      → (has c (note_configured on x ch r).successful || has c (note_configured on x ch r).failed)
        ≡ (has c r.successful || has c r.failed || ch == c)
  unfolding has
  note_configured-listed unconfigured = ground (arith, has-append c r.failed (ch ∷ []))
  note_configured-listed raised = ground (arith, has-append c r.failed (ch ∷ []))
  note_configured-listed (configured before after) =
      ground (arith, has-append c r.successful (ch ∷ []))
