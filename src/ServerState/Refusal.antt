-- ===== src/ServerState/Refusal.antt =====
-- What a refused event leaves behind.
use multi_daq.Prelude.{
  both, true, false, Option, none, some, List, [], ◌≡◌, ◌≢◌, ◌⊎◌, inl, inr, arith, Option-cases,
}
use multi_daq.ServerState.Fsm.{
  ServerFsm, ServerFsmEvent, ClientFsm, transition, is_configuration_failed,
}
use multi_daq.ServerState.Records.{
  ClientId, EventContext, ServerState, ids_in_state, normalize_client_ids, entry_or,
}
use multi_daq.ServerState.Event.{
  Request, Pending, start, drop_lost, trim_result, without_lost, set_pending, apply_event, finish,
  advance, process_event, resolve_next,
}
use multi_daq.ServerState.Table.{may_refuse, to_finalizing, started_from}

-- The pending event is as it was, or a success that has become a failure.
abbrev Follows : Pending → Pending → Type 0
Follows p p' =
    ((p'.event ≡ p.event) × (p'.next_state ≡ p.next_state))
    ⊎ ((is_configuration_failed p.event ≡ false)
        × (p'.event ≡ ServerFsmEvent.configuration_failed)
        × (p'.next_state ≡ ServerFsm.connected))

without_lost-Follows :
    (p : Pending) (expected a b : List ClientId) → Follows p (without_lost p expected a b)
unfolding without_lost
without_lost-Follows p expected a b = ground arith

trim_result-Follows :
    (p p' : Pending) (expected : List ClientId) (o : Option (List ClientId × List ClientId))
    → trim_result p expected o ≡ some p'
    → Follows p p'
unfolding trim_result
trim_result-Follows p p' expected none e = cc
trim_result-Follows p p' expected (some (a, b)) e =
    ground (arith, without_lost-Follows p expected a b)

-- The event under way is the requested one, unless every successful client was lost.
pub drop_lost_inv :
    (s : ServerState) (p p' : Pending)
    → drop_lost s p ≡ some p'
    → ((p'.event ≡ p.event) × (p'.next_state ≡ p.next_state))
      ⊎ ((s.run_state ≡ ServerFsm.configuring)
          × (p.event ≡ ServerFsmEvent.configuration_succeeded)
          × (p'.event ≡ ServerFsmEvent.configuration_failed)
          × (p'.next_state ≡ ServerFsm.connected))
unfolding drop_lost
drop_lost_inv s p p' e = ground (
  arith,
  trim_result-Follows p p' (ids_in_state ClientFsm.configuring s.clients) (
      both (normalize_client_ids (entry_or p.context.metadata.successful_clients []))
        (normalize_client_ids (entry_or p.context.metadata.failed_clients []))),
)

apply_event-ne-none :
    (s : ServerState) (e : ServerFsmEvent) (ctx : EventContext) (next : ServerFsm)
    → may_refuse e ≡ false
    → apply_event s e ctx next ≢ none
unfolding apply_event
apply_event-ne-none s e ctx next h = ground arith

finish_refused :
    (s : ServerState) (p : Pending)
    → (finish s p).1 ≡ false
    → ((finish s p).0 ≡ s) × (may_refuse p.event ≡ true)
unfolding finish
finish_refused s p h =
    ground (arith, apply_event-ne-none s p.event p.context (resolve_next s p.event p.next_state))

-- A refused CONFIGURATION_STARTED has already written where it came from.
abbrev pub Untouched : ServerState → Request → ServerState → Type 0
Untouched s q t =
    (t ≡ s)
    ⊎ ((q.event ≡ ServerFsmEvent.configuration_started)
        × ((s.run_state ≡ ServerFsm.connected) ⊎ (s.run_state ≡ ServerFsm.ready))
        × (t ≡ record s { pending_configuration_source = some s.run_state }))

set_pending_inv :
    (s : ServerState) (q : Request) (p : Pending) (s' : ServerState)
    → set_pending s p q.requested_terminal_state ≡ some s'
    → (p.next_state ≡ ServerFsm.finalizing)
      ⊎ (s' ≡ s)
      ⊎ ((p.event ≡ ServerFsmEvent.configuration_started)
          × (s' ≡ record s { pending_configuration_source = some s.run_state }))
unfolding set_pending
set_pending_inv s q p s' e = ground arith

finish-Untouched :
    (s s' : ServerState) (q : Request) (p : Pending) (next : ServerFsm)
    → transition s.run_state q.event ≡ some next
    → drop_lost s (start q next) ≡ some p
    → set_pending s p q.requested_terminal_state ≡ some s'
    → (finish s' p).1 ≡ false
    → Untouched s q (finish s' p).0
finish-Untouched s s' q p next it dl sp h = ground (
  arith,
  finish_refused s' p h,
  set_pending_inv s q p s' sp,
  drop_lost_inv s (start q next) p dl,
  to_finalizing s.run_state q.event,
  started_from s.run_state next,
)

advance-Untouched :
    (s : ServerState) (q : Request) (next : ServerFsm)
    → transition s.run_state q.event ≡ some next
    → (advance s q next).1 ≡ false
    → Untouched s q (advance s q next).0
unfolding advance
advance-Untouched s q next it h = elim (Option-cases (drop_lost s (start q next))) [
  | inl e ↦ ground arith
  | inr (p, e) ↦ elim (Option-cases (set_pending s p q.requested_terminal_state)) [
    | inl e' ↦ ground arith
    | inr (s', e') ↦ ground (arith, finish-Untouched s s' q p next it e e')
  ]
]

-- An event that is refused changes nothing, except that a CONFIGURATION_STARTED that its targets
-- make invalid has already recorded the state that it would have started from.
pub process_event_refused :
    (s : ServerState) (q : Request)
    → (process_event s q).1 ≡ false
    → Untouched s q (process_event s q).0
unfolding process_event
process_event_refused s q h = elim (Option-cases (transition s.run_state q.event)) [
  | inl e ↦ ground arith
  | inr (next, e) ↦ ground (arith, advance-Untouched s q next e)
]
