-- ===== src/ServerState/History/Effects.antt =====
-- What the parts of these calls keep (server/core/server_state.py).
use multi_daq.Prelude.{
  true, false, Option, none, some, String, ◌≡◌, refl, ◌⊎◌, inl, inr, arith, Bool-cases,
  Option-cases,
}
use multi_daq.Prelude.Text.{spells}
use multi_daq.Prelude.Dict.{Dict, modify}
use multi_daq.Prelude.Dict.Laws.{Distinct, insert-Distinct, erase-Distinct}
use multi_daq.ServerState.Fsm.{ClientFsm}
use multi_daq.ServerState.Records.{ClientId, Identity, ServerState}
use multi_daq.ServerState.Methods.{
  note_mac, forget_mac, set_mode, ClientRequest, client_moved, client_target, process_client_event,
  on_control, identified, clear_acquisition,
}
use multi_daq.ServerState.Clients.{Keeps}

pub note_mac-Distinct :
    (mac : Option String) (k : ClientId) (m : Dict ClientId)
    → Distinct m
    → Distinct (note_mac mac k m)
unfolding note_mac
note_mac-Distinct none k m d = d
note_mac-Distinct (some mac) k m d = insert-Distinct mac k m d

pub forget_mac-Distinct :
    (mac : Option String) (k : ClientId) (m : Dict ClientId)
    → Distinct m
    → Distinct (forget_mac mac k m)
unfolding forget_mac
forget_mac-Distinct none k m d = d
forget_mac-Distinct (some mac) k m d = ground (arith, erase-Distinct mac m d)

pub clear_acquisition-Keeps : Keeps clear_acquisition
clear_acquisition-Keeps r a = ground arith

pub set_mode_cases :
    (mode : String) (s : ServerState)
    → (set_mode mode s ≡ none)
      ⊎ ((m : String) × (set_mode mode s ≡ some (record s { acq_mode = m })))
unfolding set_mode
set_mode_cases mode s = elim (Bool-cases (spells "test" mode)) [
  | inl e ↦ inr ("test", rw e)
  | inr a ↦ elim (Bool-cases (spells "calibration" mode)) [
    | inl e ↦ inr ("calibration", rw (a, e))
    | inr b ↦ elim (Bool-cases (spells "multipmt" mode)) [
      | inl e ↦ inr ("multipmt", rw (a, b, e))
      | inr e ↦ inl (rw (a, b, e))
    ]
  ]
]

pub client_moved-Keeps : (q : ClientRequest) (next : ClientFsm) → Keeps (client_moved q next)
unfolding client_moved
client_moved-Keeps q next r a = a

pub identified-Keeps :
    (identity : Option Identity) → Keeps (λ r. identified identity (on_control r))
identified-Keeps none r a = (refl, a.1)
identified-Keeps (some i) r a = (refl, a.1)

-- A client event is refused, or moves its client to the table's target.
pub process_client_event_cases :
    (s : ServerState) (q : ClientRequest)
    → ((process_client_event s q ≡ (s, false)))
      ⊎ ((next : ClientFsm) × (client_target s q ≡ some next)
          × (process_client_event s q
              ≡ (record s { clients = modify q.client_id (client_moved q next) s.clients }, true)))
unfolding process_client_event
process_client_event_cases s q = ground (arith, Option-cases (client_target s q))
