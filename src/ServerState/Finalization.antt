-- ===== src/ServerState/Finalization.antt =====
-- The way out of an acquisition: an event that stops it, and the end of the finalization.
use multi_daq.Prelude.{
  Bool, true, false, none, some, List, [], ◌∷◌, ◌≡◌, ◌≢◌, refl, inl, inr, arith, ◌&&◌,
  if◌then◌else◌, contains, eq_iff, Option-cases,
}
use multi_daq.Prelude.Dict.{find, modify}
use multi_daq.Prelude.Dict.Laws.{find-modify}
use multi_daq.ServerState.Fsm.{ServerFsm, ClientFsm, transition, is_finalization}
use multi_daq.ServerState.Records.{
  ClientId, EventContext, Clients, ServerState, operational_ids, with_operational, enter_state,
  set_client_state, set_client_states,
}
use multi_daq.ServerState.Event.{
  Request, process_event, advance, drop_lost, set_pending, finish, apply_event, resolve_next,
  commit, other_event, settle, dismiss, dismiss_all, settled_state, terminal_state,
  is_valid_request, build_event_context,
}
use multi_daq.ServerState.Queries.{state_at, operational_at}

-- The state after two events, and whether both were accepted.
abbrev pub both_accepted : ServerState → Request → Request → Bool
both_accepted s q f = (process_event s q).1 && (process_event (process_event s q).0 f).1

abbrev pub after_both : ServerState → Request → Request → ServerState
after_both s q f = (process_event (process_event s q).0 f).0

pub stopping :
    (s : ServerState) (q : Request)
    → s.run_state ≡ ServerFsm.acquiring
    → is_valid_request q ≡ true
    → transition ServerFsm.acquiring q.event ≡ some ServerFsm.finalizing
    → ((process_event s q).1 ≡ true)
      × ((process_event s q).0.run_state ≡ ServerFsm.finalizing)
      × ((process_event s q).0.pending_terminal_state
          ≡ some (terminal_state q.event q.requested_terminal_state))
      × ((process_event s q).0.clients
          ≡ set_client_states ClientFsm.finalizing
              (build_event_context q)
              (operational_ids s.clients)
              s.clients)
unfolding process_event advance drop_lost set_pending finish apply_event resolve_next transition
    commit other_event
stopping s q r v h = ground arith

pub ending :
    (s : ServerState) (f : Request) (t : ServerFsm)
    → s.run_state ≡ ServerFsm.finalizing
    → s.pending_terminal_state ≡ some t
    → is_valid_request f ≡ true
    → is_finalization f.event ≡ true
    → f.requested_terminal_state ≡ none
    → t ≢ ServerFsm.finalizing
    → ((process_event s f).1 ≡ true)
      × ((process_event s f).0.run_state ≡ t)
      × ((process_event s f).0.pending_terminal_state ≡ none)
      × ((process_event s f).0.clients ≡ settle t (build_event_context f) s.clients)
unfolding process_event advance drop_lost set_pending finish apply_event resolve_next transition
    commit other_event
ending s f t r p v h n ne = ground arith

module _ (k : ClientId) (t : ServerFsm) (ctx : EventContext) where
  dismiss_lem :
      (j : ClientId) (m : Clients)
      → (operational_at k (dismiss t ctx j m)
          ≡ (if contains k (j ∷ []) then false else operational_at k m))
        × (contains k (j ∷ []) ≡ false → state_at k (dismiss t ctx j m) ≡ state_at k m)
  unfolding dismiss set_client_state contains
  dismiss_lem j m = elim (Option-cases (find j m)) [
    | inl e ↦ (ground (arith, eq_iff j k), λ h. ground arith)
    | inr (r, e) ↦ (
      ground (
        arith,
        eq_iff j k,
        find-modify k j (with_operational false) m,
        find-modify k j (enter_state (settled_state t r) ctx) (modify j (with_operational false) m),
      ),
      λ h. ground (
        arith,
        find-modify k j (with_operational false) m,
        find-modify k j (enter_state (settled_state t r) ctx) (modify j (with_operational false) m),
      ),
    )
  ]

  pub dismiss_all_lem :
      (ks : List ClientId) (m : Clients)
      → (operational_at k (dismiss_all t ctx ks m)
          ≡ (if contains k ks then false else operational_at k m))
        × (contains k ks ≡ false → state_at k (dismiss_all t ctx ks m) ≡ state_at k m)
  unfolding dismiss_all contains
  dismiss_all_lem [] m = (refl, λ h. refl)
  dismiss_all_lem (j ∷ ks) m = (
    ground (arith, dismiss_all_lem ks (dismiss t ctx j m), dismiss_lem j m),
    λ h. ground (arith, dismiss_all_lem ks (dismiss t ctx j m), dismiss_lem j m),
  )
