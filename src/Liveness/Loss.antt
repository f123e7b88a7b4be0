-- ===== src/Liveness/Loss.antt =====
-- What the server does when a client is lost (server/services/client_liveness_service.py).
use multi_daq.Prelude.{
  Option, ◌&&◌, is_some, Bool-cases, Option-cases, inl, inr, not, Bool, true, false, none, some, ℕ,
  String, List, [], ◌∷◌, ◌++◌, map, ◌≡◌, refl, sym, ap, ◌∙◌, arith, if◌then◌else◌, eq_iff, contains,
  select,
}
use multi_daq.Prelude.Dict.Laws.{Distinct}
use multi_daq.ServerState.Records.{ClientId}
use multi_daq.ServerState.Queries.{is_client_on_plane}
use mathlib.Core.Path.{subst}
use Prim.Native.String.{◌++◌ as append}
use multi_daq.Replies.Guarantees.{IsOrderly, cancel_client-waiter}
use multi_daq.Replies.Handler.{Key, ReplyHandler, waiter}
use multi_daq.Liveness.Service.{
  Plane, control, acquisition, monitoring, plane_value, plane_named, Liveness, handle_client_lost,
  drop_client, notify_listeners, without, cancel_on, reported, same_plane, note_loss,
}
use multi_daq.Liveness.Records.{Dropped, monitoring-Dropped, acquisition-Dropped, control-Dropped}

-- The waiters of the manager of a plane.
abbrev pub replies : Plane → Liveness → ReplyHandler
replies control s = s.control_replies
replies acquisition s = s.acquisition_replies
replies monitoring s = s.monitoring_replies

-- The planes whose waiters are cancelled by a loss.
abbrev pub affects : Plane → Plane → Bool
affects control q = true
affects p q = same_plane p q

without_lem : (k : ClientId) (ks : List ClientId) → contains k (without k ks) ≡ false
unfolding contains select
without_lem k [] = refl
without_lem k (j ∷ ks) = ground (arith, without_lem k ks)

cancelled_on :
    (p : Plane) (k r : String) (h : ReplyHandler) (a : ℕ)
    → IsOrderly h
    → waiter (k, r) h.reply_waiters ≡ some a
    → (waiter (k, r) (cancel_on p k h).reply_waiters ≡ none)
      × (((cancel_on p k h).object a).event ≡ true)
unfolding cancel_on
cancelled_on p k r h a o e =
    let c =
      cancel_client-waiter k (append "client lost on the " (append (plane_value p) " plane")) h
        (k, r) a o e in
    (ground (arith, c.0, eq_iff k k), ground (arith, c.1, eq_iff k k))

-- When waiters are cancelled, whoever waits is woken and no longer waits.
abbrev pub is_released : Bool → Option ℕ → Key → ReplyHandler → Bool
is_released true (some a) key h = not (is_some (waiter key h.reply_waiters)) && (h.object a).event
is_released _ _ key h = true

-- What is done of a loss on plane `p`.
pub record LossHandled (p : Plane) (k : ClientId) (s t : Liveness) : Type 0 where
  pub dropped : Dropped p k s.state.clients t.state.clients
  pub woken :
      (q : Plane) (r : String)
      → is_released (affects p q) (waiter (k, r) (replies q s).reply_waiters) (k, r) (replies q t)
        ≡ true
  pub silent : (q : Plane) → replies q t ≡ (if affects p q then replies q t else replies q s)
  pub unannounced : contains k t.client_announced ≡ false
  pub notified : t.calls ≡ s.calls ++ map (λ f. (f, (k, p))) s.listeners

module _ (k : ClientId) (now : ℕ) (s : Liveness) (d : Distinct s.state.clients)
    (o : (q : Plane) → IsOrderly (replies q s)) where
  -- The state before, with the loss noted, and after.
  handled : Plane → Bool → Liveness
  handled p b =
      notify_listeners (k, p)
        (drop_client p b k now (record s { loss_reported = note_loss (k, p) s.loss_reported }))

  replies-handled :
      (p q : Plane) (b : Bool)
      → replies q (handled p b) ≡ (if affects p q then cancel_on q k (replies q s) else replies q s)
  unfolding handled drop_client notify_listeners same_plane
  replies-handled control control b = refl
  replies-handled control acquisition b = refl
  replies-handled control monitoring b = refl
  replies-handled acquisition control b = refl
  replies-handled acquisition acquisition b = refl
  replies-handled acquisition monitoring b = refl
  replies-handled monitoring control b = refl
  replies-handled monitoring acquisition b = refl
  replies-handled monitoring monitoring b = refl

  state_handled : (p : Plane) (b : Bool) → Dropped p k s.state.clients (handled p b).state.clients
  unfolding handled drop_client notify_listeners
  state_handled control b = control-Dropped k s.state d
  state_handled acquisition b = acquisition-Dropped k s.state _ refl
  state_handled monitoring b = monitoring-Dropped k s.state

  announced_handled : (p : Plane) (b : Bool) → contains k (handled p b).client_announced ≡ false
  unfolding handled drop_client notify_listeners
  announced_handled control b = without_lem k s.client_announced
  announced_handled acquisition b = without_lem k s.client_announced
  announced_handled monitoring b = without_lem k s.client_announced

  calls_handled :
      (p : Plane) (b : Bool) → (handled p b).calls ≡ s.calls ++ map (λ f. (f, (k, p))) s.listeners
  unfolding handled drop_client notify_listeners
  calls_handled control b = refl
  calls_handled acquisition b = refl
  calls_handled monitoring b = refl

  woken_handled :
      (p q : Plane) (b : Bool) (r : String)
      → is_released
          (affects p q)
          (waiter (k, r) (replies q s).reply_waiters)
          (k, r)
          (replies q (handled p b))
        ≡ true
  woken_handled p q b r = rw (replies-handled p q b) (by_plane (affects p q))
    where
      by_plane :
          (x : Bool)
          → is_released x
              (waiter (k, r) (replies q s).reply_waiters)
              (k, r)
              (if x then cancel_on q k (replies q s) else replies q s)
            ≡ true
      by_plane false = refl
      by_plane true = elim (Option-cases (waiter (k, r) (replies q s).reply_waiters)) [
        | inl e ↦ rw e refl
        | inr (a, e) ↦
            let c = cancelled_on q k r (replies q s) a (o q) e in rw e (rw (c.0, c.1) refl)
      ]

  silent_handled :
      (p q : Plane) (b : Bool)
      → replies q (handled p b) ≡ (if affects p q then replies q (handled p b) else replies q s)
  silent_handled p q b = elim (Bool-cases (affects p q)) [
    | inl e ↦ rw e refl
    | inr e ↦
        replies-handled p q b
        ∙ ap (λ x. if x then cancel_on q k (replies q s) else replies q s) e
        ∙ ap (λ x. if x then replies q (handled p b) else replies q s) (sym e)
  ]

  drop_handled : (p : Plane) (b : Bool) → LossHandled p k s (handled p b)
  drop_handled p b = record {
    dropped = state_handled p b;
    woken = λ q r. woken_handled p q b r;
    silent = λ q. silent_handled p q b;
    unannounced = announced_handled p b;
    notified = calls_handled p b;
  }

  taken :
      (p : Plane)
      → is_client_on_plane s.state k (plane_value p) ≡ true
      → handle_client_lost k (plane_value p) now s
        ≡ (handled p (reported (k, p) s.loss_reported), true)
  unfolding handle_client_lost handled plane_named plane_value
  taken control e = rw e refl
  taken acquisition e = rw e refl
  taken monitoring e = rw e refl

-- Where every client has one record, and the dictionaries of waiters agree with what was
-- registered, a loss of a client that is registered on the plane is handled: the client is no
-- longer on the plane (after a loss of control it is not registered at all), is not operational
-- unless the plane is monitoring, and is no longer announced; its registration on the other planes
-- (unless control was lost), and the other clients, are as before; whoever waits for a reply of the
-- client on the plane (after a loss of control, on any plane) is woken, and the waiters of the
-- other planes are left alone; and each listener is called once.
pub loss_handled :
    (p : Plane) (k : ClientId) (now : ℕ) (s : Liveness)
    → Distinct s.state.clients
    → ((q : Plane) → IsOrderly (replies q s))
    → is_client_on_plane s.state k (plane_value p) ≡ true
    → ((handle_client_lost k (plane_value p) now s).1 ≡ true)
      × LossHandled p k s (handle_client_lost k (plane_value p) now s).0
loss_handled p k now s d o e =
    subst (λ x. (x.1 ≡ true) × LossHandled p k s x.0) (sym (taken k now s d o p e))
      (refl, drop_handled k now s d o p (reported (k, p) s.loss_reported))
