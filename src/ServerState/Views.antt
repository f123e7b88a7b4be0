-- ===== src/ServerState/Views.antt =====
-- The state and the operational flag of a client after each helper on `self.clients`.
use multi_daq.Prelude.{
  Bool, true, false, Option, none, some, List, [], ◌∷◌, ◌≡◌, refl, ◌∙◌, arith, if◌then◌else◌, ◌&&◌,
  contains, is_some, String,
}
use multi_daq.Prelude.Dict.{find, update_where}
use multi_daq.Prelude.Dict.Laws.{find-modify, find-update_where}
use multi_daq.ServerState.Fsm.{ClientFsm}
use multi_daq.ServerState.Records.{
  ClientId, EventContext, Clients, with_operational, set_operational, clear_operational,
  enter_state, set_client_state, set_client_states,
}
use multi_daq.ServerState.Clients.{find-set_operational}
use multi_daq.ServerState.Queries.{state_at, operational_at}

-- The state of a client that is sent to `st`, if it is registered.
abbrev pub sent : ClientFsm → Option ClientFsm → Option ClientFsm
sent st none = none
sent st (some x) = some st

module _ (k : ClientId) where
  state_at-set_client_state :
      (st : ClientFsm) (ctx : EventContext) (j : ClientId) (m : Clients)
      → state_at k (set_client_state st ctx j m)
        ≡ (if contains k (j ∷ []) then sent st (state_at k m) else state_at k m)
  unfolding set_client_state contains
  state_at-set_client_state st ctx j m = ground (arith, find-modify k j (enter_state st ctx) m)

  operational_at-set_client_state :
      (st : ClientFsm) (ctx : EventContext) (j : ClientId) (m : Clients)
      → operational_at k (set_client_state st ctx j m) ≡ operational_at k m
  unfolding set_client_state
  operational_at-set_client_state st ctx j m =
      ground (arith, find-modify k j (enter_state st ctx) m)

  pub state_at-set_client_states :
      (st : ClientFsm) (ctx : EventContext) (ks : List ClientId) (m : Clients)
      → state_at k (set_client_states st ctx ks m)
        ≡ (if contains k ks then sent st (state_at k m) else state_at k m)
  unfolding set_client_states contains
  state_at-set_client_states st ctx [] m = refl
  state_at-set_client_states st ctx (j ∷ ks) m = ground (
    arith,
    state_at-set_client_states st ctx ks (set_client_state st ctx j m),
    state_at-set_client_state st ctx j m,
  )

  pub operational_at-set_client_states :
      (st : ClientFsm) (ctx : EventContext) (ks : List ClientId) (m : Clients)
      → operational_at k (set_client_states st ctx ks m) ≡ operational_at k m
  unfolding set_client_states
  operational_at-set_client_states st ctx [] m = refl
  operational_at-set_client_states st ctx (j ∷ ks) m =
      operational_at-set_client_states st ctx ks (set_client_state st ctx j m)
      ∙ operational_at-set_client_state st ctx j m

  pub state_at-set_operational :
      (t : List ClientId) (m : Clients) → state_at k (set_operational t m) ≡ state_at k m
  state_at-set_operational t m = ground (arith, find-set_operational k t m)

  pub operational_at-set_operational :
      (t : List ClientId) (m : Clients)
      → operational_at k (set_operational t m) ≡ (contains k t && is_some (find k m))
  operational_at-set_operational t m = ground (arith, find-set_operational k t m)

  pub state_at-mark :
      (t : String → Bool) (b : Bool) (m : Clients)
      → state_at k (update_where t (with_operational b) m) ≡ state_at k m
  state_at-mark t b m = ground (arith, find-update_where k t (with_operational b) m)

  pub operational_at-mark :
      (t : String → Bool) (b : Bool) (m : Clients)
      → operational_at k (update_where t (with_operational b) m)
        ≡ (if t k then b && is_some (find k m) else operational_at k m)
  operational_at-mark t b m = ground (arith, find-update_where k t (with_operational b) m)

  pub state_at-clear : (m : Clients) → state_at k (clear_operational m) ≡ state_at k m
  unfolding clear_operational
  state_at-clear m = state_at-mark (λ j. true) false m

  pub operational_at-clear : (m : Clients) → operational_at k (clear_operational m) ≡ false
  unfolding clear_operational
  operational_at-clear m = operational_at-mark (λ j. true) false m
