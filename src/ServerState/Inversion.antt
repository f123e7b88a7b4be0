-- ===== src/ServerState/Inversion.antt =====
-- What an accepted event of `process_event` has been through: one lemma for each branch, and one
-- for the whole method.
use multi_daq.Prelude.{
  true, false, some, List, ◌++◌, ◌≡◌, arith, all_in, same_set, overlaps, is_empty,
}
use multi_daq.ServerState.Fsm.{ServerFsm, ClientFsm, transition}
use multi_daq.ServerState.Records.{
  ClientId, EventContext, ServerState, common_ids, operational_ids, ids_in_state, entry, entry_or,
  normalize_client_ids,
}
use multi_daq.ServerState.Event.{
  Request, Pending, start, drop_lost, set_pending, resolve_next, apply_event, commit, finish,
  advance, process_event, is_valid_request, start_configuration, begin_configuring,
  succeed_configuration, configured_clients, fail_configuration, unconfigured_clients,
  start_acquisition, acquiring_clients, all_ready,
}

module _ (s : ServerState) (ctx : EventContext) {t : ServerState} where
  pub start_configuration_inv :
      start_configuration s ctx ≡ some t
      → (targets : List ClientId) × (normalize_client_ids
            (entry_or ctx.metadata.target_clients (common_ids s.clients))
          ≡ some targets)
        × (all_in targets (common_ids s.clients) ≡ true)
        × (is_empty targets ≡ false)
        × (t ≡ record s {
          pending_configuration_partial = ctx.metadata.partial;
          clients = begin_configuring s ctx targets;
        })
  unfolding start_configuration
  start_configuration_inv e = ground arith

  pub succeed_configuration_inv :
      succeed_configuration s ctx ≡ some t
      → (successful : List ClientId) × (failed : List ClientId) × (normalize_client_ids
            (entry ctx.metadata.successful_clients)
          ≡ some successful)
        × (normalize_client_ids (entry_or ctx.metadata.failed_clients List.[]) ≡ some failed)
        × (is_empty successful ≡ false)
        × (overlaps successful failed ≡ false)
        × (same_set (successful ++ failed) (ids_in_state ClientFsm.configuring s.clients) ≡ true)
        × (all_in successful (common_ids s.clients) ≡ true)
        × (t ≡ record s { clients = configured_clients s ctx successful failed })
  unfolding succeed_configuration
  succeed_configuration_inv e = ground arith

  pub fail_configuration_inv :
      fail_configuration s ctx ≡ some t
      → (failed : List ClientId) × (normalize_client_ids
            (entry_or ctx.metadata.failed_clients (ids_in_state ClientFsm.configuring s.clients))
          ≡ some failed)
        × (same_set failed (ids_in_state ClientFsm.configuring s.clients) ≡ true)
        × (t ≡ record s { clients = unconfigured_clients s ctx failed })
  unfolding fail_configuration
  fail_configuration_inv e = ground arith

  pub start_acquisition_inv :
      start_acquisition s ctx ≡ some t
      → (active : List ClientId) × (normalize_client_ids
            (entry_or ctx.metadata.active_clients (operational_ids s.clients))
          ≡ some active)
        × (is_empty active ≡ false)
        × (all_ready s.clients active ≡ true)
        × (t ≡ record s { clients = acquiring_clients s ctx active })
  unfolding start_acquisition
  start_acquisition_inv e = ground arith

-- The stages that an accepted event passes.
pub record Accepted (s : ServerState) (q : Request) (t : ServerState) : Type 0 where
  pub next : ServerFsm
  pub pending : Pending
  pub prepared : ServerState
  pub applied : ServerState
  pub valid : is_valid_request q ≡ true
  pub in_table : transition s.run_state q.event ≡ some next
  pub trimmed : drop_lost s (start q next) ≡ some pending
  pub set_up : set_pending s pending q.requested_terminal_state ≡ some prepared
  pub effect :
      apply_event prepared pending.event pending.context
        (resolve_next prepared pending.event pending.next_state)
      ≡ some applied
  pub result :
      t
      ≡ commit applied pending.event pending.context
          (resolve_next prepared pending.event pending.next_state)

finish_inv :
    (s : ServerState) (p : Pending) (t : ServerState)
    → finish s p ≡ (t, true)
    → (applied : ServerState) × (apply_event s p.event p.context
          (resolve_next s p.event p.next_state)
        ≡ some applied)
      × (t ≡ commit applied p.event p.context (resolve_next s p.event p.next_state))
unfolding finish
finish_inv s p t e = ground arith

advance_inv :
    (s : ServerState) (q : Request) (next : ServerFsm) (t : ServerState)
    → advance s q next ≡ (t, true)
    → (p : Pending) × (s' : ServerState) × (drop_lost s (start q next) ≡ some p)
      × (set_pending s p q.requested_terminal_state ≡ some s')
      × (finish s' p ≡ (t, true))
unfolding advance
advance_inv s q next t e = ground arith

table_inv :
    (s : ServerState) (q : Request) (t : ServerState)
    → process_event s q ≡ (t, true)
    → (next : ServerFsm) × (is_valid_request q ≡ true)
      × (transition s.run_state q.event ≡ some next)
      × (advance s q next ≡ (t, true))
unfolding process_event
table_inv s q t e = ground arith

pub process_event_inv :
    (s : ServerState) (q : Request) {t : ServerState}
    → process_event s q ≡ (t, true)
    → Accepted s q t
process_event_inv s q {t} e =
    let (next, valid, in_table, e1) = table_inv s q t e in
    let (p, s', trimmed, set_up, e2) = advance_inv s q next t e1 in
    let (applied, effect, result) = finish_inv s' p t e2 in
    record {
      next = next;
      pending = p;
      prepared = s';
      applied = applied;
      valid = valid;
      in_table = in_table;
      trimmed = trimmed;
      set_up = set_up;
      effect = effect;
      result = result;
    }
