-- ===== src/ServerState/Landing.antt =====
-- Where a finalization lands, and what it does to each client.
use mathlib.Core.Path.{subst}
use multi_daq.Prelude.{true, false, none, some, ◌≡◌, ◌≢◌, sym, ap, ◌∙◌, arith, if◌then◌else◌}
use multi_daq.Prelude.Dict.Laws.{Distinct, contains-keys_where}
use multi_daq.ServerState.Fsm.{
  ServerFsm, ServerFsmEvent, ClientFsm, transition, same_server, is_finalization,
}
use multi_daq.ServerState.Records.{ClientId, EventContext, Clients, ServerState, operational_ids}
use multi_daq.ServerState.Event.{
  Request, process_event, settle, terminal_state, is_allowed_terminal, is_valid_request,
  build_event_context,
}
use multi_daq.ServerState.Queries.{state_at, operational_at}
use multi_daq.ServerState.Views.{state_at-set_client_states, operational_at-set_client_states}
use multi_daq.ServerState.Invariant.{
  IsWellFormed, process_event-IsWellFormed, valid_terminal, terminal_state-allowed,
}
use multi_daq.ServerState.Finalization.{
  both_accepted, after_both, stopping, ending, dismiss_all_lem,
}

-- One client before and after: back to READY and still operational if the server goes back to
-- READY, else no longer operational.
abbrev pub Settled : ServerFsm → ClientId → Clients → Clients → Type 0
Settled t k m n =
    if same_server t ServerFsm.ready
    then (operational_at k n ≡ operational_at k m)
      × ((operational_at k m ≡ true) → state_at k n ≡ some ClientFsm.ready)
    else (operational_at k n ≡ false)

settle-Settled :
    (t : ServerFsm) (ctx : EventContext) (k : ClientId) (m : Clients)
    → Distinct m
    → is_allowed_terminal t ≡ true
    → Settled t k m (settle t ctx m)
unfolding settle
settle-Settled ServerFsm.ready ctx k m d a = (
  operational_at-set_client_states k ClientFsm.ready ctx (operational_ids m) m,
  λ o. ground (
    arith,
    state_at-set_client_states k ClientFsm.ready ctx (operational_ids m) m,
    contains-keys_where k (λ r. r.operational) m d,
  ),
)
settle-Settled ServerFsm.acquiring ctx k m d a = absurd (cc)
settle-Settled ServerFsm.configuring ctx k m d a = absurd (cc)
settle-Settled ServerFsm.finalizing ctx k m d a = absurd (cc)
settle-Settled t ctx k m d a = ground (
  arith,
  dismiss_all_lem k t ctx (operational_ids m) m,
  contains-keys_where k (λ r. r.operational) m d,
)

Settled-before :
    (t : ServerFsm) (k : ClientId) (m m' n : Clients)
    → operational_at k m' ≡ operational_at k m
    → Settled t k m' n
    → Settled t k m n
Settled-before t k m m' n e h =
    subst
      (λ b.
        if same_server t ServerFsm.ready
        then (operational_at k n ≡ b) × ((b ≡ true) → state_at k n ≡ some ClientFsm.ready)
        else (operational_at k n ≡ false))
      e h

-- The state that the stop of an acquisition asks for.
unfoldable pub stop_target : Request → ServerFsm
stop_target q = elim q.event [
  | ServerFsmEvent.disconnect_requested ↦ ServerFsm.disconnected
  | ServerFsmEvent.control_connection_lost ↦ ServerFsm.disconnected
  | ServerFsmEvent.acquisition_connection_lost ↦ ServerFsm.control_connected
  | _ ↦ elim q.requested_terminal_state [ none ↦ ServerFsm.ready | some t ↦ t ]
]

stop_target_lem : (q : Request) → terminal_state q.event q.requested_terminal_state ≡ stop_target q
unfolding terminal_state stop_target
stop_target_lem q = ground arith

stop_target-allowed :
    (q : Request) → is_valid_request q ≡ true → is_allowed_terminal (stop_target q) ≡ true
stop_target-allowed q v =
    ap is_allowed_terminal (sym (stop_target_lem q))
    ∙ terminal_state-allowed q.event q.requested_terminal_state (valid_terminal q v)

stop_target-ne : (q : Request) → is_valid_request q ≡ true → stop_target q ≢ ServerFsm.finalizing
stop_target-ne q v e = not_allowed (stop_target q) e (stop_target-allowed q v)
  where
    not_allowed : (t : ServerFsm) → t ≡ ServerFsm.finalizing → is_allowed_terminal t ≡ true → ⊥
    not_allowed t e a = ground arith

operational_at-stopped :
    (k : ClientId) (s : ServerState) (q : Request)
    → s.run_state ≡ ServerFsm.acquiring
    → is_valid_request q ≡ true
    → transition ServerFsm.acquiring q.event ≡ some ServerFsm.finalizing
    → operational_at k (process_event s q).0.clients ≡ operational_at k s.clients
operational_at-stopped k s q run valid stops =
    ap (operational_at k) (stopping s q run valid stops).3
    ∙ operational_at-set_client_states k _ _ (operational_ids s.clients) s.clients

module _ (s : ServerState) (q f : Request) (run : s.run_state ≡ ServerFsm.acquiring)
    (valid : is_valid_request q ≡ true)
    (stops : transition ServerFsm.acquiring q.event ≡ some ServerFsm.finalizing)
    (valid_end : is_valid_request f ≡ true) (ends : is_finalization f.event ≡ true)
    (plain : f.requested_terminal_state ≡ none) where
  -- Every valid event that stops an acquisition, followed by the end of the finalization, is
  -- accepted, and the server lands in the state that the first event asks for: DISCONNECTED after a
  -- disconnection or the loss of the control plane, CONTROL_CONNECTED after the loss of the
  -- acquisition plane, else the requested state, or READY. Nothing stays pending.
  pub finalization_lands :
      (both_accepted s q f ≡ true)
      × ((after_both s q f).run_state ≡ stop_target q)
      × ((after_both s q f).pending_terminal_state ≡ none)
  finalization_lands =
      let (ok, state, pending, _) = stopping s q run valid stops in
      let (ok', state', pending', _) =
        ending _ f (stop_target q) state (pending ∙ ap some (stop_target_lem q)) valid_end ends
          plain (stop_target-ne q valid) in
      (ground (arith, ok, ok'), state', pending')

  -- In a well-formed state the same two events leave every operational client READY if the server
  -- lands in READY, and otherwise no client operational.
  pub finalization_settles :
      IsWellFormed s
      → (k : ClientId) → Settled (stop_target q) k s.clients (after_both s q f).clients
  finalization_settles w k =
      let (ok, state, pending, _) = stopping s q run valid stops in
      let (_, _, _, clients) =
        ending _ f (stop_target q) state (pending ∙ ap some (stop_target_lem q)) valid_end ends
          plain (stop_target-ne q valid) in
      let settled =
        settle-Settled (stop_target q) (build_event_context f) k (process_event s q).0.clients
          (process_event-IsWellFormed s q w).registry.distinct (stop_target-allowed q valid) in
      Settled-before (stop_target q) k _ _ _ (operational_at-stopped k s q run valid stops)
        (subst (Settled (stop_target q) k (process_event s q).0.clients) (sym clients) settled)
