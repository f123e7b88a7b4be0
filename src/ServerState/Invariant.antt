-- ===== src/ServerState/Invariant.antt =====
-- The invariant of the whole state, and that `process_event` keeps it.
use multi_daq.Prelude.{Bool, true, false, Option, none, some, ◌≡◌, ◌⊎◌, inl, inr, arith, Bool-cases}
use mathlib.Core.Path.{subst, sym}
use multi_daq.Prelude.Dict.Laws.{Distinct}
use multi_daq.ServerState.Fsm.{
  ServerFsm, ServerFsmEvent, same_server, is_configuration_failed, is_finalization,
}
use multi_daq.ServerState.Records.{EventContext, ServerState}
use multi_daq.ServerState.Event.{
  Request, Pending, start, set_pending, resolve_next, apply_event, commit, process_event,
  is_valid_request, terminal_ok, is_allowed_terminal, terminal_state,
}
use multi_daq.ServerState.Clients.{IsRegistry}
use multi_daq.ServerState.Inversion.{
  Accepted, process_event_inv, start_configuration_inv, succeed_configuration_inv,
  fail_configuration_inv, start_acquisition_inv,
}
use multi_daq.ServerState.Refusal.{Untouched, drop_lost_inv, process_event_refused}
use multi_daq.ServerState.WellFormed.{apply_event-IsRegistry}
use multi_daq.ServerState.Table.{from_finalizing_events, started_from, to_finalizing_plain}

-- The states from which a configuration starts.
abbrev pub source_ok : Option ServerFsm → Bool
source_ok none = true
source_ok (some ServerFsm.connected) = true
source_ok (some ServerFsm.ready) = true
source_ok (some _) = false

pub record IsWellFormed (s : ServerState) : Type 0 where
  pub registry : IsRegistry s.clients
  pub pending : (s.run_state ≡ ServerFsm.finalizing) ⊎ (s.pending_terminal_state ≡ none)
  pub allowed : terminal_ok s.pending_terminal_state ≡ true
  pub source : source_ok s.pending_configuration_source ≡ true
  pub macs : Distinct s.client_id_by_mac

-- The branches write nothing but the clients and whether the configuration is partial.
pub apply_event_frame :
    (s : ServerState) (e : ServerFsmEvent) (ctx : EventContext) (next : ServerFsm) (t : ServerState)
    → apply_event s e ctx next ≡ some t
    → t ≡ record s {
      clients = t.clients;
      pending_configuration_partial = t.pending_configuration_partial;
    }
unfolding apply_event
apply_event_frame s ServerFsmEvent.configuration_started ctx next t e =
    let (_, _, _, _, p) = start_configuration_inv s ctx e in cc
apply_event_frame s ServerFsmEvent.configuration_succeeded ctx next t e =
    let (_, _, _, _, _, _, _, _, p) = succeed_configuration_inv s ctx e in cc
apply_event_frame s ServerFsmEvent.configuration_failed ctx next t e =
    let (_, _, _, p) = fail_configuration_inv s ctx e in cc
apply_event_frame s ServerFsmEvent.acquisition_started ctx next t e =
    let (_, _, _, _, p) = start_acquisition_inv s ctx e in cc
apply_event_frame s _ ctx next t e = ground arith

pub terminal_state-allowed :
    (e : ServerFsmEvent) (r : Option ServerFsm)
    → terminal_ok r ≡ true
    → is_allowed_terminal (terminal_state e r) ≡ true
unfolding terminal_state
terminal_state-allowed e none h = ground arith
terminal_state-allowed e (some r) h = ground arith

pub valid_terminal :
    (q : Request) → is_valid_request q ≡ true → terminal_ok q.requested_terminal_state ≡ true
unfolding is_valid_request
valid_terminal q h = ground arith

-- The fields that `set_pending` writes, by the branch taken.
pub set_pending_cases :
    (s : ServerState) (p : Pending) (requested : Option ServerFsm) (s' : ServerState)
    → set_pending s p requested ≡ some s'
    → ((p.next_state ≡ ServerFsm.finalizing)
        × (s' ≡ record s {
          pending_event = some p.event;
          pending_terminal_state = some (terminal_state p.event requested);
          pending_context = some p.context;
        }))
      ⊎ ((same_server p.next_state ServerFsm.finalizing ≡ false)
          × (requested ≡ none)
          × ((s' ≡ s)
              ⊎ ((p.event ≡ ServerFsmEvent.configuration_started)
                  × (p.next_state ≡ ServerFsm.configuring)
                  × (s' ≡ record s { pending_configuration_source = some s.run_state }))))
unfolding set_pending
set_pending_cases s p requested s' e = ground arith

commit-pending :
    (x : ServerState) (e : ServerFsmEvent) (ctx : EventContext) (n : ServerFsm)
    → (x.pending_terminal_state ≡ none)
      ⊎ (n ≡ ServerFsm.finalizing)
      ⊎ ((x.run_state ≡ ServerFsm.finalizing)
          × ((is_finalization e ≡ true) ⊎ (e ≡ ServerFsmEvent.fatal_error)))
    → ((commit x e ctx n).run_state ≡ ServerFsm.finalizing)
      ⊎ ((commit x e ctx n).pending_terminal_state ≡ none)
unfolding commit
commit-pending x e ctx n h = ground arith

commit-allowed :
    (x : ServerState) (e : ServerFsmEvent) (ctx : EventContext) (n : ServerFsm)
    → terminal_ok x.pending_terminal_state ≡ true
    → terminal_ok (commit x e ctx n).pending_terminal_state ≡ true
unfolding commit
commit-allowed x e ctx n h = ground arith

commit-source :
    (x : ServerState) (e : ServerFsmEvent) (ctx : EventContext) (n : ServerFsm)
    → source_ok x.pending_configuration_source ≡ true
    → source_ok (commit x e ctx n).pending_configuration_source ≡ true
unfolding commit
commit-source x e ctx n h = ground arith

pub commit-clients :
    (x : ServerState) (e : ServerFsmEvent) (ctx : EventContext) (n : ServerFsm)
    → (commit x e ctx n).clients ≡ x.clients
unfolding commit
commit-clients x e ctx n = ground arith

commit-macs :
    (x : ServerState) (e : ServerFsmEvent) (ctx : EventContext) (n : ServerFsm)
    → (commit x e ctx n).client_id_by_mac ≡ x.client_id_by_mac
unfolding commit
commit-macs x e ctx n = ground arith

resolve_next-finalizing :
    (x : ServerState) (e : ServerFsmEvent)
    → is_configuration_failed e ≡ false
    → is_finalization e ≡ false
    → resolve_next x e ServerFsm.finalizing ≡ ServerFsm.finalizing
unfolding resolve_next
resolve_next-finalizing x e h k = ground arith

module _ {s t : ServerState} {q : Request} (w : IsWellFormed s) (a : Accepted s q t) where
  cases :
      ((a.pending.event ≡ q.event) × (a.pending.next_state ≡ a.next))
      ⊎ ((s.run_state ≡ ServerFsm.configuring)
          × (q.event ≡ ServerFsmEvent.configuration_succeeded)
          × (a.pending.event ≡ ServerFsmEvent.configuration_failed)
          × (a.pending.next_state ≡ ServerFsm.connected))
  cases = drop_lost_inv s (start q a.next) a.pending a.trimmed

  applied_frame :
      (a.applied.run_state ≡ a.prepared.run_state)
      × (a.applied.pending_terminal_state ≡ a.prepared.pending_terminal_state)
      × (a.applied.pending_configuration_source ≡ a.prepared.pending_configuration_source)
  applied_frame = ground (arith, apply_event_frame _ _ _ _ a.applied a.effect)

  prepared_frame : (a.prepared.run_state ≡ s.run_state) × (a.prepared.clients ≡ s.clients)
  prepared_frame =
      ground (arith, set_pending_cases s a.pending q.requested_terminal_state a.prepared a.set_up)

  same_macs : a.applied.client_id_by_mac ≡ s.client_id_by_mac
  same_macs = ground (
    arith,
    apply_event_frame _ _ _ _ a.applied a.effect,
    set_pending_cases s a.pending q.requested_terminal_state a.prepared a.set_up,
  )

  premise :
      (a.prepared.pending_terminal_state ≡ none)
      ⊎ (resolve_next a.prepared a.pending.event a.pending.next_state ≡ ServerFsm.finalizing)
      ⊎ ((s.run_state ≡ ServerFsm.finalizing)
          × ((is_finalization a.pending.event ≡ true)
              ⊎ (a.pending.event ≡ ServerFsmEvent.fatal_error)))
  premise = ground (
    arith,
    cases,
    set_pending_cases s a.pending q.requested_terminal_state a.prepared a.set_up,
    from_finalizing_events q.event a.next,
    to_finalizing_plain s.run_state q.event,
    resolve_next-finalizing a.prepared a.pending.event,
  )

  prepared_allowed : terminal_ok a.prepared.pending_terminal_state ≡ true
  prepared_allowed = ground (
    arith,
    valid_terminal q a.valid,
    terminal_state-allowed a.pending.event q.requested_terminal_state,
    set_pending_cases s a.pending q.requested_terminal_state a.prepared a.set_up,
  )

  prepared_source : source_ok a.prepared.pending_configuration_source ≡ true
  prepared_source = ground (
    arith,
    cases,
    started_from s.run_state a.next,
    set_pending_cases s a.pending q.requested_terminal_state a.prepared a.set_up,
  )

  accepted-IsWellFormed : IsWellFormed t
  accepted-IsWellFormed = rw a.result (record {
    registry = rw commit-clients (
        apply_event-IsRegistry a.prepared _ (subst IsRegistry (sym prepared_frame.1) w.registry) _ _
          a.effect);
    pending =
        commit-pending a.applied _ _ _ (ground (arith, premise, applied_frame, prepared_frame));
    allowed = commit-allowed a.applied _ _ _ (ground (arith, prepared_allowed, applied_frame));
    source = commit-source a.applied _ _ _ (ground (arith, prepared_source, applied_frame));
    macs = rw commit-macs (rw same_macs w.macs);
  })

Untouched-IsWellFormed :
    {s t : ServerState} (q : Request) → IsWellFormed s → Untouched s q t → IsWellFormed t
Untouched-IsWellFormed q w (inl e) = rw e w
Untouched-IsWellFormed q w (inr (_, from, e)) = rw e (record {
  registry = w.registry;
  pending = w.pending;
  allowed = w.allowed;
  source = ground arith;
  macs = w.macs;
})

-- Every event, accepted or refused, keeps the state well formed.
pub process_event-IsWellFormed :
    (s : ServerState) (q : Request) → IsWellFormed s → IsWellFormed (process_event s q).0
process_event-IsWellFormed s q w = elim (Bool-cases (process_event s q).1) [
  | inl e ↦ accepted-IsWellFormed w (process_event_inv s q (λ i. ((process_event s q).0, e i)))
  | inr e ↦ Untouched-IsWellFormed q w (process_event_refused s q e)
]
