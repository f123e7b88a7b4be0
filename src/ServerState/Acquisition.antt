-- ===== src/ServerState/Acquisition.antt =====
-- The start of an acquisition: which clients take part, and when it is accepted.
use mathlib.Core.Path.{subst, subst₂}
use multi_daq.Prelude.{
  true, false, some, List, [], ◌∷◌, ◌≡◌, sym, ap, ◌∙◌, ◌⊎◌, arith, contains, is_empty, eq_iff,
  contains_head,
}
use multi_daq.Prelude.Dict.Laws.{Distinct, contains-keys_where}
use multi_daq.ServerState.Fsm.{ServerFsm, ServerFsmEvent, ClientFsm}
use multi_daq.ServerState.Records.{ClientId, EventContext, Clients, ServerState, set_operational}
use multi_daq.ServerState.Event.{
  Request, process_event, apply_event, start, start_acquisition, all_ready, acquiring_clients,
}
use multi_daq.ServerState.Queries.{state_at, operational_at}
use multi_daq.ServerState.Views.{
  state_at-set_client_states, operational_at-set_client_states, state_at-set_operational,
  operational_at-set_operational,
}
use multi_daq.ServerState.Inversion.{Accepted, process_event_inv, start_acquisition_inv}
use multi_daq.ServerState.Refusal.{drop_lost_inv}
use multi_daq.ServerState.Invariant.{IsWellFormed, commit-clients, set_pending_cases}

-- One client before and after the start: an operational client that was READY takes part, and the
-- others are not operational any more and keep their state.
abbrev pub TakesPart : ClientId → Clients → Clients → Type 0
TakesPart k m n =
    ((operational_at k n ≡ true)
      × (operational_at k m ≡ true)
      × (state_at k m ≡ some ClientFsm.ready)
      × (state_at k n ≡ some ClientFsm.acquiring))
    ⊎ ((operational_at k n ≡ false) × (state_at k n ≡ state_at k m))

module _ (m : Clients) (d : Distinct m) where
  ready_member :
      (k : ClientId) (ks : List ClientId)
      → all_ready m ks ≡ true
      → contains k ks ≡ true
      → (operational_at k m ≡ true) × (state_at k m ≡ some ClientFsm.ready)
  unfolding all_ready contains
  ready_member k [] a c = cc
  ready_member k (j ∷ ks) a c =
      ground (arith, eq_iff j k, ready_member k ks, contains-keys_where k (λ r. r.operational) m d)

module _ (s : ServerState) (ctx : EventContext) (k : ClientId) (active : List ClientId)
    (d : Distinct s.clients) (ready : all_ready s.clients active ≡ true) where
  acquiring-TakesPart : TakesPart k s.clients (acquiring_clients s ctx active)
  unfolding acquiring_clients
  acquiring-TakesPart = ground (
    arith,
    state_at-set_client_states k ClientFsm.acquiring ctx active (set_operational active s.clients),
    operational_at-set_client_states k ClientFsm.acquiring ctx active
        (set_operational active s.clients),
    state_at-set_operational k active s.clients,
    operational_at-set_operational k active s.clients,
    ready_member s.clients d k active ready,
  )

-- The list is not empty and all its clients are ready, so one of them takes part.
someone :
    (s : ServerState) (ctx : EventContext) (active : List ClientId)
    → Distinct s.clients
    → all_ready s.clients active ≡ true
    → is_empty active ≡ false
    → (k : ClientId) × (operational_at k (acquiring_clients s ctx active) ≡ true)
unfolding acquiring_clients is_empty
someone s ctx [] d ready h = absurd (cc)
someone s ctx (k ∷ ks) d ready h = (
  k,
  ground (
    arith,
    contains_head k ks,
    operational_at-set_client_states k ClientFsm.acquiring ctx (k ∷ ks)
        (set_operational (k ∷ ks) s.clients),
    operational_at-set_operational k (k ∷ ks) s.clients,
    ready_member s.clients d k (k ∷ ks) ready,
  ),
)

starting :
    (s : ServerState) (e : ServerFsmEvent) (ctx : EventContext) (next : ServerFsm) (t : ServerState)
    → e ≡ ServerFsmEvent.acquisition_started
    → apply_event s e ctx next ≡ some t
    → start_acquisition s ctx ≡ some t
unfolding apply_event
starting s e ctx next t h eq = subst (λ x. apply_event s x ctx next ≡ some t) h eq

-- The clients that the branch leaves.
abbrev pub Starts : Clients → Clients → Type 0
Starts m n = ((k : ClientId) → TakesPart k m n) × ((k : ClientId) × (operational_at k n ≡ true))

start_acquisition-Starts :
    (s : ServerState) (ctx : EventContext) (t : ServerState)
    → Distinct s.clients
    → start_acquisition s ctx ≡ some t
    → Starts s.clients t.clients
start_acquisition-Starts s ctx t d eq =
    let (active, _, full, ready, p) = start_acquisition_inv s ctx eq in
    rw p (λ k. acquiring-TakesPart s ctx k active d ready, someone s ctx active d ready full)

module _ (s : ServerState) (q : Request) {t : ServerState} (w : IsWellFormed s)
    (accepted : process_event s q ≡ (t, true))
    (event : q.event ≡ ServerFsmEvent.acquisition_started) where
  a : Accepted s q t
  a = process_event_inv s q accepted

  same_event : a.pending.event ≡ ServerFsmEvent.acquisition_started
  same_event = ground (arith, drop_lost_inv s (start q a.next) a.pending a.trimmed)

  same_clients : a.prepared.clients ≡ s.clients
  same_clients =
      ground (arith, set_pending_cases s a.pending q.requested_terminal_state a.prepared a.set_up)

  -- From a well-formed state, an accepted ACQUISITION_STARTED finds every client that takes part
  -- operational and READY, puts it in ACQUIRING, leaves nobody else operational or changed in
  -- state, and at least one client takes part.
  pub acquisition-Starts : Starts s.clients t.clients
  acquisition-Starts =
      subst₂ Starts same_clients
        (sym (ap (λ x. x.clients) a.result ∙ commit-clients a.applied _ _ _))
        (start_acquisition-Starts a.prepared a.pending.context a.applied
          (rw same_clients w.registry.distinct)
          (starting a.prepared _ _ _ a.applied same_event a.effect))
