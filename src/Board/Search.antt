-- ===== src/Board/Search.antt =====
-- The search for a board on the bus (client/hardware/hv/hvmodbus.py).
use Prim.Native.Nat.{zero, suc}
use multi_daq.Prelude.{
  ◌+◌, ◌<◌, ◌≤◌, ◌==◌, ◌⊎◌, Bool, true, false, Option, none, some, ℕ, List, [], ◌∷◌, ◌≡◌, refl,
  arith, if◌then◌else◌, ◌&&◌, Bool-cases, inl, inr,
}
use multi_daq.Board.Access.{
  Bus, HvModbus, ensure_connected, safe_read, open_channel, same_device, is_connected,
  check_address, member, find_from, range_from, num_channels, candidates, find_feb_address,
}

-- Whether the board with an address answers.
unfoldable pub answers_at : Bus → ℕ → Bool
unfolding ensure_connected
answers_at bus a = ensure_connected bus && bus.answers (some a) 0 1

-- The first that passes a test.
unfoldable pub find_first : (ℕ → Bool) → List ℕ → Option ℕ
find_first p [] = none
find_first p (x ∷ xs) = let rest = find_first p xs in if p x then some x else rest

pub check_address_lem :
    (bus : Bus) (a : ℕ) (s : HvModbus)
    → check_address bus a s
      ≡ (record s { ch_addr = if answers_at bus a then some a else none }, answers_at bus a)
unfolding check_address open_channel safe_read answers_at same_device is_connected
check_address_lem bus a s = ground arith

module _ (bus : Bus) where
  -- No address that was tried answers.
  abbrev Silent : List ℕ → Type 0
  Silent seen = (x : ℕ) → member x seen ≡ true → answers_at bus x ≡ false

  abbrev pub found : List ℕ → HvModbus → HvModbus × Option ℕ
  found xs s =
      (record s { ch_addr = find_first (answers_at bus) xs }, find_first (answers_at bus) xs)

  Silent-cons : (a : ℕ) (seen : List ℕ) → answers_at bus a ≡ false → Silent seen → Silent (a ∷ seen)
  unfolding member
  Silent-cons a seen t h x m = ground (arith, t, h x)

  -- An address that was not tried.
  find_from-new :
      (a : ℕ) (xs seen : List ℕ) (s : HvModbus)
      → ((seen : List ℕ) (s : HvModbus)
          → Silent seen
          → s.ch_addr ≡ none
          → find_from bus xs seen s ≡ found xs s)
      → Silent seen
      → member a seen ≡ false
      → find_from bus (a ∷ xs) seen s ≡ found (a ∷ xs) s
  unfolding find_from find_first
  find_from-new a xs seen s later h e = elim (Bool-cases (answers_at bus a)) [
    | inl t ↦ rw (check_address_lem bus a s, e, t) refl
    | inr t ↦
        rw (check_address_lem bus a s, e, t)
          (later (a ∷ seen) (record s { ch_addr = none }) (Silent-cons a seen t h) refl)
  ]

  find_from-found :
      (xs seen : List ℕ) (s : HvModbus)
      → Silent seen
      → s.ch_addr ≡ none
      → find_from bus xs seen s ≡ found xs s
  unfolding find_from find_first
  find_from-found [] seen s h c = ground (arith, c)
  find_from-found (a ∷ xs) seen s h c = elim (Bool-cases (member a seen)) [
    | inl e ↦ ground (arith, e, h a e, find_from-found xs seen s h c)
    | inr e ↦ find_from-new a xs seen s (find_from-found xs) h e
  ]

  pub find_feb_address-found :
      (preferred : Option ℕ) (s : HvModbus)
      → find_feb_address bus preferred s ≡ found (candidates preferred) s
  unfolding find_feb_address range_from member
  find_feb_address-found none s =
      find_from-new 1 (range_from 2 19) [] s (find_from-found (range_from 2 19))
        (λ x m. absurd (ground (arith, m))) refl
  find_feb_address-found (some a) s =
      find_from-new a (range_from 1 num_channels) [] s (find_from-found (range_from 1 num_channels))
        (λ x m. absurd (ground (arith, m))) refl

-- What a search from `a` on finds, over `n` addresses.
abbrev FoundFrom : (ℕ → Bool) → ℕ → ℕ → Option ℕ → Type 0
FoundFrom p a n none = (x : ℕ) → a ≤ x → x < a + n → p x ≡ false
FoundFrom p a n (some x) =
    (p x ≡ true) × (a ≤ x) × (x < a + n) × ((y : ℕ) → a ≤ y → y < x → p y ≡ false)

find_first-FoundFrom : (p : ℕ → Bool) (a n : ℕ) → FoundFrom p a n (find_first p (range_from a n))
unfolding find_first range_from
find_first-FoundFrom p a zero = λ x l u. absurd (omega (arith, l, u))
find_first-FoundFrom p a (suc n) =
    by_first (p a) refl (find_first p (range_from (a + 1) n)) (find_first-FoundFrom p (a + 1) n)
  where
    by_first :
        (b : Bool)
        → p a ≡ b
        → (o : Option ℕ) → FoundFrom p (a + 1) n o
        → FoundFrom p a (suc n) (if b then some a else o)
    by_first true e o h = (e, omega arith, omega arith, λ y l u. absurd (omega (arith, l, u)))
    by_first false e none h = λ x l u. elim (Bool-cases (x == a)) [
      | inl same ↦ ground (arith, same, e)
      | inr other ↦ h x (ground (arith, other, l)) (ground (arith, u))
    ]
    by_first false e (some x) h = (
      h.0,
      omega (arith, h.1),
      omega (arith, h.2),
      λ y l u. elim (Bool-cases (y == a)) [
        | inl same ↦ ground (arith, same, e)
        | inr other ↦ h.3 y (ground (arith, other, l)) u
      ],
    )

-- What a search should find that asks the address `first` before those from 1 to 20: `first` if it
-- answers, else the least of the others that answers.
abbrev pub IsFound : (ℕ → Bool) → ℕ → Option ℕ → Type 0
IsFound p first none = (p first ≡ false) × ((x : ℕ) → 1 ≤ x → x ≤ 20 → p x ≡ false)
IsFound p first (some x) =
    (p x ≡ true)
    × (x ≡ first
        ⊎ ((p first ≡ false) × (1 ≤ x) × (x ≤ 20) × ((y : ℕ) → 1 ≤ y → y < x → p y ≡ false)))

pub find_first-IsFound :
    (p : ℕ → Bool) (first : ℕ) → IsFound p first (find_first p (candidates (some first)))
unfolding find_first
find_first-IsFound p first =
    by_first (p first) refl (find_first p (range_from 1 20)) (find_first-FoundFrom p 1 20)
  where
    by_first :
        (b : Bool)
        → p first ≡ b
        → (o : Option ℕ) → FoundFrom p 1 20 o
        → IsFound p first (if b then some first else o)
    by_first true e o h = (e, inl refl)
    by_first false e none h = (e, λ x l u. h x l (omega (arith, u)))
    by_first false e (some x) h = (h.0, inr (e, h.1, omega (arith, h.2), h.3))
