-- ===== src/MacRegistry/Ids.antt =====
-- Ids are unique, and lead back to their MAC addresses (server/core/mac_id_registry.py).
use multi_daq.Prelude.{
  Bool, true, false, not, Option, none, some, ℕ, ◌<◌, String, List, [], ◌∷◌, ◌≡◌, refl, arith, ◌&&◌,
  get_or, Option-cases, Bool-cases, inl, inr, is_some, str_eq, eq_iff, sym,
}
use mathlib.Core.Path.{subst}
use multi_daq.Prelude.Dict.{Dict, find, insert}
use multi_daq.Prelude.Dict.Laws.{find-insert, Distinct}
use multi_daq.MacRegistry.Registry.{
  Registry, new_registry, inverted, loaded, note_id, next_index, register, add_client_mac,
  get_mac_from_id,
}

-- What a registry holds: no id is above the index, and every address is found under its id.
abbrev pub IsConsistent : Dict ℕ → (ℕ → Option String) → Type 0
IsConsistent d by_id =
    (mac : String) (n : ℕ)
    → str_eq mac "index" ≡ false
    → find mac d ≡ some n
    → (n < next_index (find "index" d)) × (by_id n ≡ some mac)

module _ (saves : Bool) (mac : String) (d : Dict ℕ) (by_id : ℕ → Option String)
    (real : str_eq mac "index" ≡ false) (w : IsConsistent d by_id) where
  entry_known :
      (k n : ℕ) (m : String)
      → find mac d ≡ some k
      → str_eq m "index" ≡ false
      → find m d ≡ some n
      → (n < next_index (find "index" d)) × (note_id k mac by_id n ≡ some m)
  unfolding note_id
  entry_known k n m known j e = ground (arith, w m n j e, w mac k real known)

  -- A new entry: the id is above every other.
  entry_new :
      (n : ℕ) (m : String)
      → find mac d ≡ none
      → str_eq m "index" ≡ false
      → find m (
          insert "index" (next_index (find "index" d)) (insert mac (next_index (find "index" d)) d))
        ≡ some n
      → (n
          < next_index (
              find "index" (
                insert "index"
                  (next_index (find "index" d))
                  (insert mac (next_index (find "index" d)) d))))
        × (note_id (next_index (find "index" d)) mac by_id n ≡ some m)
  unfolding note_id
  entry_new n m new j e = ground (
    arith,
    w m n j,
    find-insert m "index" (next_index (find "index" d))
        (insert mac (next_index (find "index" d)) d),
    find-insert m mac (next_index (find "index" d)) d,
    find-insert "index" "index" (next_index (find "index" d))
        (insert mac (next_index (find "index" d)) d),
    eq_iff mac m,
    eq_iff "index" m,
    eq_iff m "index",
  )

-- What a call leaves, whether the address was known or not.
register-IsConsistent :
    (o : Option ℕ) (saves : Bool) (mac : String) (d : Dict ℕ) (by_id : ℕ → Option String)
    → find mac d ≡ o
    → str_eq mac "index" ≡ false
    → IsConsistent d by_id
    → IsConsistent
        (get_or (register o saves mac d by_id).0.present [])
        (register o saves mac d by_id).0.mac_by_id
unfolding register
register-IsConsistent none saves mac d by_id e real w m n j f =
    entry_new saves mac d by_id real w n m e j f
register-IsConsistent (some k) saves mac d by_id e real w m n j f =
    entry_known saves mac d by_id real w k n m e j f

register-present :
    (o : Option ℕ) (saves : Bool) (mac : String) (d : Dict ℕ) (by_id : ℕ → Option String)
    → is_some (register o saves mac d by_id).0.present ≡ true
unfolding register
register-present none saves mac d by_id = refl
register-present (some k) saves mac d by_id = refl

abbrev pub IsKept : Option (Dict ℕ) → Registry → Type 0
IsKept file r = IsConsistent (get_or (loaded file r).present []) (loaded file r).mac_by_id

loaded_again :
    (file : Option (Dict ℕ)) (r : Registry) → is_some r.present ≡ true → loaded file r ≡ r
loaded_again file r e = rw e refl

add-IsKept :
    (file : Option (Dict ℕ)) (saves : Bool) (mac : String) (r : Registry)
    → str_eq mac "index" ≡ false
    → IsKept file r
    → IsKept file (add_client_mac file saves mac r).0
unfolding add_client_mac
add-IsKept file saves mac r real w =
    let s = loaded file r in
    let d = get_or s.present [] in
    subst (λ t. IsConsistent (get_or t.present []) t.mac_by_id)
      (sym (
        loaded_again file (register (find mac d) saves mac d s.mac_by_id).0
          (register-present (find mac d) saves mac d s.mac_by_id)))
      (register-IsConsistent (find mac d) saves mac d s.mac_by_id refl real w)

-- Registrations one after another, each with whether the file can be written.
unfoldable pub add_all : Option (Dict ℕ) → List (Bool × String) → Registry → Registry
add_all file [] r = r
add_all file ((saves, mac) ∷ cs) r = add_all file cs (add_client_mac file saves mac r).0

unfoldable pub all_real : List (Bool × String) → Bool
all_real [] = true
all_real ((saves, mac) ∷ cs) = not (str_eq mac "index") && all_real cs

add_all-IsKept :
    (file : Option (Dict ℕ)) (cs : List (Bool × String)) (r : Registry)
    → all_real cs ≡ true
    → IsKept file r
    → IsKept file (add_all file cs r)
unfolding add_all all_real
add_all-IsKept file [] r a w = w
add_all-IsKept file ((saves, mac) ∷ cs) r a w =
    add_all-IsKept file cs (add_client_mac file saves mac r).0 (ground arith)
      (add-IsKept file saves mac r (ground arith) w)

-- What the file should hold: addresses with ids that are not above the index, no id for two of them.
pub record IsNumbered (d : Dict ℕ) : Type 0 where
  pub keys : Distinct d
  pub counted :
      (mac : String) (n : ℕ)
      → str_eq mac "index" ≡ false
      → find mac d ≡ some n
      → n < next_index (find "index" d)
  pub single :
      (a b : String) (n : ℕ)
      → str_eq a "index" ≡ false
      → str_eq b "index" ≡ false
      → find a d ≡ some n
      → find b d ≡ some n
      → a ≡ b

-- An id that `inverted` knows is the id of the address.
inverted-find :
    (d : Dict ℕ) (n : ℕ) (m : String)
    → Distinct d
    → inverted d n ≡ some m
    → (str_eq m "index" ≡ false) × (find m d ≡ some n)
unfolding inverted find
inverted-find [] n m k e = ground arith
inverted-find ((mac, id) ∷ d) n m k e = elim (Option-cases (inverted d n)) [
  | inl none_later ↦ ground (arith, eq_iff mac m)
  | inr (x, later) ↦ ground (arith, eq_iff mac m, inverted-find d n x k.1 later, eq_iff x m)
]

later_found :
    (j a : String) (id n : ℕ) (d : Dict ℕ)
    → find j d ≡ none
    → find a d ≡ some n
    → find a ((j, id) ∷ d) ≡ some n
unfolding find
later_found j a id n d new e = ground (arith, eq_iff j a)

-- An address that has an id is known under it.
find-inverted :
    (d : Dict ℕ) (n : ℕ) (mac : String)
    → Distinct d
    → ((a b : String)
        → str_eq a "index" ≡ false
        → str_eq b "index" ≡ false
        → find a d ≡ some n
        → find b d ≡ some n
        → a ≡ b)
    → str_eq mac "index" ≡ false
    → find mac d ≡ some n
    → inverted d n ≡ some mac
unfolding find inverted
find-inverted [] n mac k w real e = ground arith
find-inverted ((j, id) ∷ d) n mac k w real e = elim (Bool-cases (str_eq j mac)) [
  | inl first ↦ elim (Option-cases (inverted d n)) [
    | inl none_later ↦ ground (arith, eq_iff j mac)
    | inr (x, later) ↦
        let (x_real, found) = inverted-find d n x k.1 later in
        let same = w x mac x_real real (later_found j x id n d k.0 found) e in
        ground (arith, eq_iff j mac, same, found, k.0)
  ]
  | inr other ↦
      let found : find mac d ≡ some n = ground (arith, other) in
      let rest =
        find-inverted d n mac k.1
          (λ a b ra rb ea eb.
            w a b ra rb (later_found j a id n d k.0 ea) (later_found j b id n d k.0 eb))
          real found in
      ground (arith, rest)
]

start-IsKept : (file : Option (Dict ℕ)) → IsNumbered (get_or file []) → IsKept file new_registry
unfolding find
start-IsKept none w = λ mac n i e. ground arith
start-IsKept (some d) w = λ mac n real e.
    (w.counted mac n real e, find-inverted d n mac w.keys (λ a b. w.single a b n) real e)

-- From a file with each key once, in which no two addresses share an id and no id is above the
-- index, or from no file, after any registrations, saved or not, two MAC addresses never share an
-- id, and each id leads back to its address.
pub ids_unique :
    (file : Option (Dict ℕ)) (cs : List (Bool × String)) (a b : String) (n : ℕ)
    → IsNumbered (get_or file [])
    → all_real cs ≡ true
    → str_eq a "index" ≡ false
    → str_eq b "index" ≡ false
    → find a (get_or (loaded file (add_all file cs new_registry)).present []) ≡ some n
    → find b (get_or (loaded file (add_all file cs new_registry)).present []) ≡ some n
    → (a ≡ b) × ((get_mac_from_id file n (add_all file cs new_registry)).1 ≡ some a)
unfolding get_mac_from_id
ids_unique file cs a b n w real i j e f =
    let kept = add_all-IsKept file cs new_registry real (start-IsKept file w) in
    let (_, of_a) = kept a n i e in
    let (_, of_b) = kept b n j f in (ground (arith, of_a, of_b), of_a)
