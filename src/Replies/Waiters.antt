-- ===== src/Replies/Waiters.antt =====
-- Runs of ReplyHandler and what they keep (common/reply_handler.py).
use multi_daq.Prelude.{
  Bool, true, false, not, Option, none, some, ℕ, ◌<◌, String, List, [], ◌∷◌, ◌++◌, ◌≡◌, refl, arith,
  ◌==◌, ltb, ◌&&◌, ◌||◌, str_eq, eq_iff, is_some, Option-cases, Bool-cases, inl, inr, sym, ◌∙◌,
}
use multi_daq.Message.Protocol.{ProtocolMessage}
use multi_daq.Replies.Handler.{
  Key, same_key, PendingReply, ReplyHandler, waiter, assign, register_pending_reply, addressee,
  delivered, deliver_pending_reply, Answer, reply, failure, begin_wait, outcome, end_wait, wake,
  cancel_waiters, cancel_where, cancel_all, cancel_client,
}

-- A call of a method.
pub data Call : Type 0 where
  register : Key → Call
  deliver : String → ProtocolMessage → Call
  finish_wait : Key → Call
  cancel_every : String → Call
  cancel_of : String → String → Call

unfoldable pub step : ReplyHandler → Call → ReplyHandler
step s (register k) = (register_pending_reply k s).0
step s (deliver c m) = (deliver_pending_reply c m s).0
step s (finish_wait k) = end_wait k s
step s (cancel_every reason) = (cancel_all reason s).0
step s (cancel_of c reason) = (cancel_client c reason s).0

unfoldable pub run : ReplyHandler → List Call → ReplyHandler
unfolding step
run s [] = s
run s (c ∷ cs) = run (step s c) cs

abbrev pub is_answered : PendingReply → Bool
is_answered p = p.event && is_some p.message

module _ (a : ℕ) where
  wake-is_answered :
      (c : Bool) (reason : String) (b : ℕ) (object : ℕ → PendingReply)
      → is_answered (object a) ≡ true
      → is_answered (wake c reason b object a) ≡ true
  unfolding wake
  wake-is_answered c reason b object h = ground arith

  cancel_waiters-is_answered :
      (test : Key → Bool) (reason : String) (ws : List (Key × ℕ)) (object : ℕ → PendingReply)
      → is_answered (object a) ≡ true
      → is_answered (cancel_waiters test reason ws object a) ≡ true
  unfolding cancel_waiters
  cancel_waiters-is_answered test reason [] object h = h
  cancel_waiters-is_answered test reason ((k, b) ∷ ws) object h =
      cancel_waiters-is_answered test reason ws (wake (test k) reason b object)
        (wake-is_answered (test k) reason b object h)

  delivered-is_answered :
      (o : Option ℕ) (m : ProtocolMessage) (s : ReplyHandler)
      → is_answered (s.object a) ≡ true
      → is_answered ((delivered o m s).0.object a) ≡ true
  unfolding assign
  delivered-is_answered none m s h = h
  delivered-is_answered (some b) m s h = ground arith

  register-is_answered :
      (k : Key) (s : ReplyHandler)
      → a < s.registrations
      → is_answered (s.object a) ≡ true
      → is_answered ((register_pending_reply k s).0.object a) ≡ true
  unfolding register_pending_reply assign
  register-is_answered k s l h = elim (Bool-cases (is_some (waiter k s.reply_waiters))) [
    | inl e ↦ rw e h
    | inr e ↦ rw e (ground arith)
  ]

  step-is_answered :
      (s : ReplyHandler) (c : Call)
      → a < s.registrations
      → is_answered (s.object a) ≡ true
      → is_answered ((step s c).object a) ≡ true
  unfolding step end_wait cancel_all cancel_client cancel_where deliver_pending_reply
  step-is_answered s (register k) l h = register-is_answered k s l h
  step-is_answered s (deliver c m) l h =
      delivered-is_answered (addressee c m.in_reply_to s.reply_waiters) m s h
  step-is_answered s (finish_wait k) l h = h
  step-is_answered s (cancel_every reason) l h =
      cancel_waiters-is_answered (λ k. true) reason s.reply_waiters s.object h
  step-is_answered s (cancel_of c reason) l h =
      cancel_waiters-is_answered (λ k. str_eq k.0 c) reason s.reply_waiters s.object h

  step-registrations :
      (s : ReplyHandler) (c : Call) → a < s.registrations → a < (step s c).registrations
  unfolding step end_wait cancel_all cancel_client cancel_where register_pending_reply
      deliver_pending_reply
  step-registrations s (register k) l = ground arith
  step-registrations s (deliver c m) l = ground arith
  step-registrations s (finish_wait k) l = l
  step-registrations s (cancel_every reason) l = l
  step-registrations s (cancel_of c reason) l = l

  run-is_answered :
      (s : ReplyHandler) (cs : List Call)
      → a < s.registrations
      → is_answered (s.object a) ≡ true
      → is_answered ((run s cs).object a) ≡ true
  unfolding run
  run-is_answered s [] l h = h
  run-is_answered s (c ∷ cs) l h =
      run-is_answered (step s c) cs (step-registrations s c l) (step-is_answered s c l h)

outcome-answered :
    (p : PendingReply) → is_answered p ≡ true → (m : ProtocolMessage) × (outcome p ≡ reply m)
outcome-answered p h = elim (Option-cases p.message) [
  | inl e ↦ ground arith
  | inr (m, e) ↦ (m, ground arith)
]

delivered_now :
    (o : Option ℕ) (m : ProtocolMessage) (s : ReplyHandler) (a : ℕ)
    → o ≡ some a
    → is_answered ((delivered o m s).0.object a) ≡ true
unfolding assign
delivered_now none m s a e = ground arith
delivered_now (some b) m s a e = ground arith

-- `wait_pending_reply`: what it returns, and the state that it leaves, when other threads make the calls
-- `during` while it waits, and the calls `late` after the wait and before the key is forgotten. A
-- waiter that was cancelled before is no longer there.
unfoldable pub wait_pending_reply :
    Key → List Call → List Call → ReplyHandler → ReplyHandler × Answer
wait_pending_reply k during late s = elim (begin_wait k s) [
  | none ↦ (s, failure "reply not found")
  | some a ↦ (end_wait k (run (run s during) late), outcome ((run s during).object a))
]

pub wait_pending_reply-found :
    (k : Key) (during late : List Call) (s : ReplyHandler) (a : ℕ)
    → waiter k s.reply_waiters ≡ some a
    → wait_pending_reply k during late s
      ≡ (end_wait k (run (run s during) late), outcome ((run s during).object a))
unfolding wait_pending_reply begin_wait
wait_pending_reply-found k during late s a e = rw (wait_pending_reply, e) refl

pub run-append : (s : ReplyHandler) (cs ds : List Call) → run s (cs ++ ds) ≡ run (run s cs) ds
unfolding run
run-append s [] ds = refl
run-append s (c ∷ cs) ds = run-append (step s c) cs ds

pub run-registrations :
    (a : ℕ) (s : ReplyHandler) (cs : List Call) → a < s.registrations → a < (run s cs).registrations
unfolding run
run-registrations a s [] l = l
run-registrations a s (c ∷ cs) l = run-registrations a (step s c) cs (step-registrations a s c l)

-- Once a reply has been delivered to a waiter that is still registered, the object stays answered.
pub answered_for_good :
    (s : ReplyHandler) (c : String) (m : ProtocolMessage) (a : ℕ) (cs : List Call)
    → a < s.registrations
    → addressee c m.in_reply_to s.reply_waiters ≡ some a
    → (n : ProtocolMessage) × (outcome ((run s (deliver c m ∷ cs)).object a) ≡ reply n)
unfolding run step deliver_pending_reply
answered_for_good s c m a cs l e = outcome-answered ((run (step s (deliver c m)) cs).object a) (
    run-is_answered a (step s (deliver c m)) cs (step-registrations a s (deliver c m) l)
      (delivered_now (addressee c m.in_reply_to s.reply_waiters) m s a e))

-- Numbers in the list of waiters: each is below the number of registrations and stands once.
unfoldable pub is_number : ℕ → List (Key × ℕ) → Bool
is_number a [] = false
is_number a ((k, b) ∷ ws) = a == b || is_number a ws

unfoldable pub is_orderly : ℕ → List (Key × ℕ) → Bool
is_orderly n [] = true
is_orderly n ((k, a) ∷ ws) =
    ltb a n && not (is_number a ws) && not (is_some (waiter k ws)) && is_orderly n ws

pub waiter-is_number :
    (k : Key) (a : ℕ) (ws : List (Key × ℕ)) → waiter k ws ≡ some a → is_number a ws ≡ true
unfolding waiter is_number
waiter-is_number k a [] e = ground arith
waiter-is_number k a ((j, b) ∷ ws) e = ground (arith, waiter-is_number k a ws)

pub same_key_eq : (k j : Key) → same_key k j ≡ true → k ≡ j
unfolding same_key
same_key_eq (c, r) (d, q) e = ground (arith, eq_iff c d, eq_iff r q)

-- Two waiters with the same number are the same.
pub same_number :
    (n : ℕ) (k j : Key) (a : ℕ) (ws : List (Key × ℕ))
    → is_orderly n ws ≡ true
    → waiter k ws ≡ some a
    → waiter j ws ≡ some a
    → k ≡ j
unfolding waiter is_orderly
same_number n k j a [] o e f = ground arith
same_number n k j a ((i, b) ∷ ws) o e f = elim (Bool-cases (same_key i k)) [
  | inl p ↦ elim (Bool-cases (same_key i j)) [
    | inl q ↦ sym (same_key_eq i k p) ∙ same_key_eq i j q
    | inr q ↦ ground (arith, waiter-is_number j a ws)
  ]
  | inr p ↦ elim (Bool-cases (same_key i j)) [
    | inl q ↦ ground (arith, waiter-is_number k a ws)
    | inr q ↦ same_number n k j a ws (ground arith) (ground arith) (ground arith)
  ]
]
