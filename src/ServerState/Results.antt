-- ===== src/ServerState/Results.antt =====
-- CONFIGURATION_SUCCEEDED and CONFIGURATION_FAILED as a caller of `process_event` sees them.
use multi_daq.Prelude.{Bool, true, false, some, ◌≡◌, sym, ap, ◌∙◌, arith}
use mathlib.Core.Path.{subst, subst₂}
use multi_daq.Prelude.Dict.Laws.{Distinct}
use multi_daq.ServerState.Fsm.{ServerFsm, ServerFsmEvent, is_configuration_result}
use multi_daq.ServerState.Records.{ClientId, Clients, EventContext, ServerState}
use multi_daq.ServerState.Event.{Request, process_event, apply_event, start}
use multi_daq.ServerState.Inversion.{
  Accepted, process_event_inv, succeed_configuration_inv, fail_configuration_inv,
}
use multi_daq.ServerState.Refusal.{drop_lost_inv}
use multi_daq.ServerState.Invariant.{IsWellFormed, commit-clients, set_pending_cases}
use multi_daq.ServerState.Configuration.{
  Resolved, Admits, configured-Resolved, configured-Admits, unconfigured-Resolved,
  unconfigured-Admits,
}

-- Both halves of the effect of a result on one client.
abbrev Effect : ClientId → Bool → Clients → Clients → Type 0
Effect k partial m n = Resolved k m n × (partial ≡ false → Admits k m n)

apply_event-Effect :
    (s : ServerState) (e : ServerFsmEvent) (ctx : EventContext) (next : ServerFsm) (t : ServerState)
    (k : ClientId)
    → Distinct s.clients
    → is_configuration_result e ≡ true
    → apply_event s e ctx next ≡ some t
    → Effect k s.pending_configuration_partial s.clients t.clients
unfolding apply_event
apply_event-Effect s ServerFsmEvent.configuration_succeeded ctx next t k d r eq =
    let (a, f, _, _, _, o, same, _, p) = succeed_configuration_inv s ctx eq in
    rw p (configured-Resolved s ctx k d a f same, configured-Admits s ctx k d a f same o)
apply_event-Effect s ServerFsmEvent.configuration_failed ctx next t k d r eq =
    let (f, _, same, p) = fail_configuration_inv s ctx eq in
    rw p (unconfigured-Resolved s ctx k d f same, unconfigured-Admits s ctx k d f same)
apply_event-Effect s _ ctx next t k d r eq = absurd (cc)

module _ (s : ServerState) (q : Request) {t : ServerState} (w : IsWellFormed s)
    (accepted : process_event s q ≡ (t, true)) (result : is_configuration_result q.event ≡ true)
    (k : ClientId) where
  a : Accepted s q t
  a = process_event_inv s q accepted

  still_result : is_configuration_result a.pending.event ≡ true
  still_result = ground (arith, drop_lost_inv s (start q a.next) a.pending a.trimmed)

  prepared_same :
      (a.prepared.clients ≡ s.clients)
      × (a.prepared.pending_configuration_partial ≡ s.pending_configuration_partial)
  prepared_same =
      ground (arith, set_pending_cases s a.pending q.requested_terminal_state a.prepared a.set_up)

  entered : t.clients ≡ a.applied.clients
  entered = ap (λ x. x.clients) a.result ∙ commit-clients a.applied _ _ _

  process_event-Effect : Effect k s.pending_configuration_partial s.clients t.clients
  process_event-Effect =
      subst (λ n. Effect k s.pending_configuration_partial s.clients n) (sym entered)
        (subst₂ (λ b m. Effect k b m a.applied.clients) prepared_same.1 prepared_same.0
          (apply_event-Effect a.prepared a.pending.event a.pending.context _ a.applied k
            (rw prepared_same.0 w.registry.distinct) still_result a.effect))

  -- From a well-formed state, an accepted CONFIGURATION_SUCCEEDED or CONFIGURATION_FAILED leaves
  -- no client under configuration: each one that was is now READY or in ERROR, and every other
  -- client keeps its state.
  pub configuration_resolves : Resolved k s.clients t.clients
  configuration_resolves = process_event-Effect.0

  -- From a well-formed state, after an accepted result of a configuration that is not partial the
  -- operational clients are exactly those that went from CONFIGURING to READY.
  pub configuration-Admits : s.pending_configuration_partial ≡ false → Admits k s.clients t.clients
  configuration-Admits full = process_event-Effect.1 full
