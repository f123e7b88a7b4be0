-- ===== src/ServerState/CanStart.antt =====
-- `can_start_acquisition` against the event that it announces.
use multi_daq.Prelude.{
  true, none, some, List, [], ◌∷◌, ◌≡◌, ◌≢◌, refl, arith, contains, is_empty, eq_iff, dedup,
  contains-dedup, contains_head,
}
use multi_daq.Prelude.Dict.{find}
use multi_daq.Prelude.Dict.Laws.{Distinct, contains-keys_where}
use multi_daq.ServerState.Fsm.{ServerFsm, ServerFsmEvent, ClientFsm, transition}
use multi_daq.ServerState.Records.{
  ClientId, missing, EventContext, Clients, ServerState, operational_ids, normalize_client_ids,
}
use multi_daq.ServerState.Event.{
  Request, process_event, advance, drop_lost, set_pending, finish, apply_event, start_acquisition,
  resolve_next, commit, all_ready, is_valid_request, build_event_context,
}
use multi_daq.ServerState.Queries.{state_at, operational_at, can_start_acquisition}
use multi_daq.ServerState.Invariant.{IsWellFormed}

module _ (m : Clients) (d : Distinct m)
    (ready : (k : ClientId) → operational_at k m ≡ true → state_at k m ≡ some ClientFsm.ready) where
  all_ready_of :
      (ks : List ClientId)
      → ((k : ClientId) → contains k ks ≡ true → operational_at k m ≡ true)
      → all_ready m ks ≡ true
  unfolding all_ready contains
  all_ready_of [] h = refl
  all_ready_of (k ∷ ks) h = ground (
    arith,
    contains_head k ks,
    h k,
    ready k,
    contains-keys_where k (λ r. r.operational) m d,
    all_ready_of ks (λ j c. h j (ground (arith, eq_iff k j))),
  )

  operational-ready : all_ready m (dedup (operational_ids m)) ≡ true
  operational-ready = all_ready_of (dedup (operational_ids m)) (λ k c.
      ground (
        arith,
        contains-dedup k (operational_ids m),
        contains-keys_where k (λ r. r.operational) m d,
      ))

is_empty-dedup : (ks : List ClientId) → is_empty (dedup ks) ≡ is_empty ks
unfolding is_empty dedup
is_empty-dedup [] = refl
is_empty-dedup (k ∷ ks) = refl

normalized :
    (m : Clients)
    → Distinct m
    → find "" m ≡ none
    → normalize_client_ids (some (operational_ids m)) ≡ some (dedup (operational_ids m))
unfolding normalize_client_ids
normalized m d n =
    ground (
      arith,
      contains-dedup "" (operational_ids m),
      contains-keys_where "" (λ r. r.operational) m d,
    )

started :
    (s : ServerState) (ctx : EventContext)
    → IsWellFormed s
    → can_start_acquisition s ≡ true
    → ((k : ClientId)
        → operational_at k s.clients ≡ true
        → state_at k s.clients ≡ some ClientFsm.ready)
    → ctx.metadata.active_clients ≡ missing
    → start_acquisition s ctx ≢ none
unfolding start_acquisition can_start_acquisition
started s ctx w c r m = ground (
  arith,
  normalized s.clients w.registry.distinct w.registry.named,
  is_empty-dedup (operational_ids s.clients),
  operational-ready s.clients w.registry.distinct r,
)

-- In a well-formed state whose operational clients are all READY, `can_start_acquisition` promises
-- that a valid ACQUISITION_STARTED with the default clients is accepted and enters ACQUIRING.
pub can_start_accepted :
    (s : ServerState) (q : Request)
    → IsWellFormed s
    → can_start_acquisition s ≡ true
    → ((k : ClientId)
        → operational_at k s.clients ≡ true
        → state_at k s.clients ≡ some ClientFsm.ready)
    → is_valid_request q ≡ true
    → q.event ≡ ServerFsmEvent.acquisition_started
    → q.metadata.active_clients ≡ missing
    → q.requested_terminal_state ≡ none
    → ((process_event s q).1 ≡ true) × ((process_event s q).0.run_state ≡ ServerFsm.acquiring)
unfolding process_event advance drop_lost set_pending finish apply_event resolve_next transition
    can_start_acquisition build_event_context commit
can_start_accepted s q w c r v e m n = ground (arith, started s (build_event_context q) w c r)
