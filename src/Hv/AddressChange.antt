-- ===== src/Hv/AddressChange.antt =====
-- The change of the address of a board (`change_feb_address` in client/hardware/hv/hv_interface.py). What
-- the bus answers before and after the address is written are arguments. No call in it raises: the
-- exceptions are caught where they may arise. Messages are left out.
use Prim.Native.Nat.{zero, suc}
use mathlib.Core.Path.{subst}
use multi_daq.Prelude.{
  sym, not, [], ◌∷◌, ◌&&◌, Bool, true, false, Option, none, some, ℕ, ◌≡◌, refl, ap, arith,
  if◌then◌else◌, ◌||◌, ◌==◌, Bool-cases, inl, inr,
}
use multi_daq.Hv.Lists.{Hv, move_to_ok}
use multi_daq.Board.Access.{
  Bus, HvModbus, Device, same_device, ensure_connected, overwritten, safe_write, check_address,
  candidates, find_feb_address,
}
use multi_daq.Board.Search.{
  IsFound, find_first-IsFound, answers_at, find_first, check_address_lem, find_feb_address-found,
}

pub record AddressReply : Type 0 where
  pub success : Bool
  pub old_address : Option ℕ
  pub new_address : ℕ

-- What `reset_connection` leaves, whether connecting succeeds or not.
unfoldable pub reset_connection : HvModbus → HvModbus
reset_connection s = record s { ch_addr = none }

-- `standard_addr or new_address`
abbrev pub preferred : ℕ → Option ℕ → ℕ
preferred new none = new
preferred new (some a) = if a == 0 then new else a

-- `setModbusAddress` may raise.
abbrev pub interrupted : HvModbus → Option HvModbus → HvModbus
interrupted s none = s
interrupted s (some t) = t

abbrev pub address_reply : Bool → Option ℕ → ℕ → AddressReply
address_reply b old new = record { success = b; old_address = old; new_address = new }

unfoldable pub verify_address : Bus → ℕ → ℕ → Hv → HvModbus → AddressReply × Hv × HvModbus
verify_address bus old new hv s =
    let c = check_address bus new s in
    if c.1
    then (address_reply true (some old) new, move_to_ok new hv, c.0)
    else (address_reply false (some old) new, hv, c.0)

-- `change_feb_address`, once a board was looked for.
abbrev pub change_found : Bus → Bus → ℕ → Hv → HvModbus × Option ℕ → AddressReply × Hv × HvModbus
change_found before later new hv (s, none) = (address_reply false none new, hv, s)
change_found before later new hv (s, some old) =
    let written = interrupted s (safe_write before 0 new (some old) s) in
    if old == new
    then (address_reply true (some old) new, move_to_ok new hv, s)
    else verify_address later old new hv (reset_connection written)

unfoldable pub change_feb_address :
    Bus → Bus → ℕ → Option ℕ → Hv → HvModbus → AddressReply × Hv × HvModbus
unfolding verify_address reset_connection
change_feb_address before later new standard hv s =
    change_found before later new hv
      (find_feb_address before (some (preferred new standard)) (reset_connection s))

verify_address_lem :
    (bus : Bus) (old new : ℕ) (hv : Hv) (u : HvModbus)
    → verify_address bus old new hv u ≡ (
      address_reply (answers_at bus new) (some old) new,
      (if answers_at bus new then move_to_ok new hv else hv),
      record u { ch_addr = if answers_at bus new then some new else none },
    )
unfolding verify_address
verify_address_lem bus old new hv u = elim (Bool-cases (answers_at bus new)) [
  | inl e ↦ rw (check_address_lem bus new u, e) refl
  | inr e ↦ rw (check_address_lem bus new u, e) refl
]

-- The address that is asked first: the standard one if it is given and not 0, else the new one.
abbrev pub asked_first : ℕ → Option ℕ → ℕ
asked_first new none = new
asked_first new (some zero) = new
asked_first new (some (suc a)) = suc a

preferred_lem : (new : ℕ) (standard : Option ℕ) → preferred new standard ≡ asked_first new standard
preferred_lem new none = refl
preferred_lem new (some zero) = refl
preferred_lem new (some (suc a)) = ground arith

module _ (before later : Bus) (new : ℕ) (hv : Hv) (s : HvModbus) where
  abbrev pub should_succeed : Option ℕ → Bool
  should_succeed none = false
  should_succeed (some old) = old == new || answers_at later new

  -- Whether register 0 of the board at `old` is written and takes the new address.
  abbrev pub should_write : Option ℕ → Device → ℕ → Bool
  should_write none d i = false
  should_write (some old) d i =
      not (old == new)
      && (before.connected || before.connects)
      && before.takes (some old) 0 (new ∷ [])
      && same_device (some old) d
      && i == 0

  abbrev pub Changed : Option ℕ → AddressReply × Hv × HvModbus → Type 0
  Changed old (reply, t, u) =
      (reply.success ≡ should_succeed old)
      × (reply.old_address ≡ old)
      × (t ≡ (if should_succeed old then move_to_ok new hv else hv))
      × (u.ch_addr ≡ (if should_succeed old then some new else none))
      × ((d : Device) (i : ℕ)
          → u.registers d i ≡ (if should_write old d i then new else s.registers d i))

  written_address :
      (old : ℕ)
      → old == new ≡ false
      → (d : Device) (i : ℕ)
      → (interrupted
            (record s { ch_addr = some old })
            (safe_write before 0 new (some old) (record s { ch_addr = some old }))).registers
          d i
        ≡ (if should_write (some old) d i then new else s.registers d i)
  unfolding safe_write ensure_connected overwritten
  written_address old e d i = ground (arith, e)

  change_found-Changed :
      (old : Option ℕ)
      → Changed old (change_found before later new hv (record s { ch_addr = old }, old))
  unfolding verify_address reset_connection
  change_found-Changed none = (refl, refl, refl, refl, λ d i. refl)
  change_found-Changed (some old) = elim (Bool-cases (old == new)) [
    | inl e ↦ rw e (refl, refl, refl, ap some (ground (arith, e)), λ d i. ground (arith, e))
    | inr e ↦
        let written =
          interrupted (record s { ch_addr = some old })
            (safe_write before 0 new (some old) (record s { ch_addr = some old })) in
        let kept = written_address old e in
        rw (e, verify_address_lem later old new hv (reset_connection written))
          (refl, refl, refl, refl, λ d i. ground (arith, e, kept d i))
  ]

-- The change of the address of a board. The old address in the reply is one at which a board answers:
-- the standard address if one is given that is not 0, or else the new one, if a board answers there, and
-- otherwise the least from 1 to 20; it is none only if no board answers at any of these. The change
-- succeeds exactly if there is an old address, and it is the new one or a board answers at the new
-- address after the change. The new address is written to register 0 of the board at the old one,
-- provided that they differ and the write is answered, and no other register of any board is changed.
-- After a success the channel is in the list of OK channels and is the one that is open; otherwise the
-- lists are as before and no channel is open.
pub address-Changed :
    (before later : Bus) (new : ℕ) (standard : Option ℕ) (hv : Hv) (s : HvModbus)
    → IsFound
        (answers_at before)
        (asked_first new standard)
        (change_feb_address before later new standard hv s).0.old_address
      × Changed before later new hv s
          (change_feb_address before later new standard hv s).0.old_address
          (change_feb_address before later new standard hv s)
unfolding change_feb_address reset_connection
address-Changed before later new standard hv s =
    let first = preferred new standard in
    let old = find_first (answers_at before) (candidates (some first)) in
    let found = find_feb_address-found before (some first) (reset_connection s) in
    let changed = change_found-Changed before later new hv s old in
    let same = changed.1 in
    rw found (
      subst (IsFound (answers_at before) (asked_first new standard)) (sym same) (
          subst (λ x. IsFound (answers_at before) x old) (preferred_lem new standard)
            (find_first-IsFound (answers_at before) first)),
      subst
          (λ o.
            Changed before later new hv s o
              (change_found before later new hv (record s { ch_addr = old }, old)))
          (sym same) changed,
    )
