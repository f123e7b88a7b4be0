-- ===== src/Replies/Handler.antt =====
-- ReplyHandler (common/reply_handler.py). The dictionary maps a client and a request to a PendingReply,
-- which the waiting thread also holds: the objects stand in a store, by the number of the
-- registration that made them. `wait_pending_reply` is three steps, since its lock is not held while it
-- waits, and other calls come between them: `begin_wait` looks the object up, `outcome` is what the
-- object gives when the event is set or the time is up, and `end_wait` forgets the key. Every other
-- method is one step under the lock.
use multi_daq.Prelude.{
  Bool, true, false, Option, none, some, ℕ, suc, ◌-◌, String, List, [], ◌∷◌, ◌++◌, if◌then◌else◌,
  ◌==◌, ◌&&◌, str_eq, length, is_some,
}
use multi_daq.Message.Protocol.{Json, text, ProtocolMessage}

abbrev pub Key : Type 0
Key = String × String

unfoldable pub same_key : Key → Key → Bool
same_key (c, r) (d, q) = str_eq c d && str_eq r q

pub record PendingReply : Type 0 where
  pub event : Bool
  pub message : Option ProtocolMessage
  pub error : Option String

abbrev pub fresh : PendingReply
fresh = record { event = false; message = none; error = none }

pub record ReplyHandler : Type 0 where
  pub reply_waiters : List (Key × ℕ)
  pub object : ℕ → PendingReply
  pub registrations : ℕ

abbrev pub empty : ReplyHandler
empty = record { reply_waiters = []; object = λ a. fresh; registrations = 0 }

-- `self._reply_waiters.get(key)`
unfoldable pub waiter : Key → List (Key × ℕ) → Option ℕ
waiter k [] = none
waiter k ((j, a) ∷ ws) = if same_key j k then some a else waiter k ws

-- `self._reply_waiters.pop(key, None)`
unfoldable pub forget : Key → List (Key × ℕ) → List (Key × ℕ)
forget k [] = []
forget k ((j, a) ∷ ws) = let rest = forget k ws in if same_key j k then ws else (j, a) ∷ rest

-- An assignment to the object of number `a`.
unfoldable pub assign : ℕ → PendingReply → (ℕ → PendingReply) → ℕ → PendingReply
assign a p object b = if a == b then p else object b

-- `register_pending_reply`
unfoldable pub register_pending_reply : Key → ReplyHandler → ReplyHandler × Bool
register_pending_reply k s = if is_some (waiter k s.reply_waiters) then (s, false) else (
  record {
    reply_waiters = s.reply_waiters ++ (k, s.registrations) ∷ [];
    object = assign s.registrations fresh s.object;
    registrations = suc s.registrations;
  },
  true,
)

-- The waiter that a message is a reply to.
abbrev pub addressee : String → Json → List (Key × ℕ) → Option ℕ
addressee c (text r) ws = waiter (c, r) ws
addressee c _ ws = none

abbrev pub answered : ProtocolMessage → PendingReply → PendingReply
answered m p = record p { message = some m; event = true }

abbrev pub delivered : Option ℕ → ProtocolMessage → ReplyHandler → ReplyHandler × Bool
delivered none m s = (s, false)
delivered (some a) m s = (record s { object = assign a (answered m (s.object a)) s.object }, true)

-- `deliver_pending_reply`
unfoldable pub deliver_pending_reply : String → ProtocolMessage → ReplyHandler → ReplyHandler × Bool
deliver_pending_reply c m s = delivered (addressee c m.in_reply_to s.reply_waiters) m s

-- What `wait_pending_reply` returns.
pub data Answer : Type 0 where
  reply : ProtocolMessage → Answer
  failure : String → Answer
  timeout : Answer

-- `wait_pending_reply`, up to the wait; `none` is "reply not found".
unfoldable pub begin_wait : Key → ReplyHandler → Option ℕ
begin_wait k s = waiter k s.reply_waiters

-- `pending.error or "wait cancelled"`
abbrev pub reason_of : Option String → String
reason_of none = "wait cancelled"
reason_of (some e) = if str_eq e "" then "wait cancelled" else e

-- What `wait_pending_reply` is going to return, from the end of `event.wait` on. A message that is there
-- is not taken away, so that it is read in the same step.
abbrev pub outcome : PendingReply → Answer
outcome p =
    if p.event
    then elim p.message [ none ↦ failure (reason_of p.error) | some m ↦ reply m ]
    else timeout

-- The `finally` of `wait_pending_reply`.
unfoldable pub end_wait : Key → ReplyHandler → ReplyHandler
end_wait k s = record s { reply_waiters = forget k s.reply_waiters }

abbrev pub cancelled : String → PendingReply → PendingReply
cancelled reason p = record p { error = some reason; event = true }

-- One turn of the loop below: the object `a` is woken with an error, if its waiter is cancelled.
unfoldable pub wake : Bool → String → ℕ → (ℕ → PendingReply) → ℕ → PendingReply
wake cancel reason a object b = if cancel && a == b then cancelled reason (object b) else object b

-- The loop of `_cancel_locked` over the waiters that pass the test: each is popped and woken.
unfoldable pub cancel_waiters :
    (Key → Bool) → String → List (Key × ℕ) → (ℕ → PendingReply) → ℕ → PendingReply
cancel_waiters test reason [] object = object
cancel_waiters test reason ((k, a) ∷ ws) object =
    cancel_waiters test reason ws (wake (test k) reason a object)

unfoldable pub keep_waiters : (Key → Bool) → List (Key × ℕ) → List (Key × ℕ)
keep_waiters test [] = []
keep_waiters test ((k, a) ∷ ws) =
    let rest = keep_waiters test ws in if test k then rest else (k, a) ∷ rest

unfoldable pub cancel_where : (Key → Bool) → String → ReplyHandler → ReplyHandler
unfolding cancel_waiters keep_waiters
cancel_where test reason s = record s {
  reply_waiters = keep_waiters test s.reply_waiters;
  object = cancel_waiters test reason s.reply_waiters s.object;
}

-- `cancel_all`
unfoldable pub cancel_all : String → ReplyHandler → ReplyHandler × ℕ
cancel_all reason s = (cancel_where (λ k. true) reason s, length s.reply_waiters)

-- `cancel_client`
unfoldable pub cancel_client : String → String → ReplyHandler → ReplyHandler × ℕ
cancel_client c reason s =
    let left = keep_waiters (λ k. str_eq k.0 c) s.reply_waiters in
    (cancel_where (λ k. str_eq k.0 c) reason s, length s.reply_waiters - length left)
