-- ===== src/Replies/Tests.antt =====
-- Runs of ReplyHandler, and the theorems about it at concrete inputs.
use multi_daq.Prelude.{
  true, false, ◌||◌, ◌++◌, none, some, List, [], ◌∷◌, ◌≡◌, refl, if◌then◌else◌, str_eq,
}
use multi_daq.Prelude.Int.{pos}
use multi_daq.Message.Protocol.{
  null, integer, real, text, object, no_members, ProtocolMessage, MessageType,
}
use multi_daq.Replies.Handler.{
  same_key, ReplyHandler, empty, waiter, forget, assign, register_pending_reply,
  deliver_pending_reply, reply, failure, timeout, begin_wait, end_wait, wake, cancel_waiters,
  keep_waiters, cancel_where, cancel_all, cancel_client,
}
use multi_daq.Replies.Waiters.{
  Call, register, deliver, cancel_every, finish_wait, cancel_of, step, run, wait_pending_reply,
}
use multi_daq.Replies.Guarantees.{
  answer_kept, cancel_client_wakes, reply_reaches_one, late_reply_refused,
}

abbrev reply_to_q1 : ProtocolMessage
reply_to_q1 = record {
  protocol_version = integer (pos 1);
  msg_type = MessageType.reply;
  request_id = text "r1";
  timestamp = real "1.5";
  payload = object no_members;
  channel = none;
  command = null;
  phase = null;
  in_reply_to = text "q1";
  sender = null;
  status = none;
  priority = null;
}

abbrev two_waiters : List Call
two_waiters = register ("a", "q1") ∷ register ("b", "q1") ∷ []

-- To unfold this is to unfold all that a run computes with.
waiting : List Call → ReplyHandler
unfolding run step same_key waiter forget assign register_pending_reply deliver_pending_reply
    end_wait wake cancel_waiters keep_waiters cancel_where cancel_all cancel_client
waiting cs = run empty cs

answer_kept_example :
    ((n : ProtocolMessage) × ((wait_pending_reply
          ("a", "q1")
          ((finish_wait ("b", "q1") ∷ []) ++ deliver "a" reply_to_q1 ∷ cancel_every "stopped" ∷ [])
          (cancel_of "a" "gone" ∷ [])
          (run empty two_waiters)).1
        ≡ reply n))
    × (waiter
          ("a", "q1")
          (wait_pending_reply
            ("a", "q1")
            ((finish_wait ("b", "q1") ∷ [])
              ++ deliver "a" reply_to_q1 ∷ cancel_every "stopped" ∷ [])
            (cancel_of "a" "gone" ∷ [])
            (run empty two_waiters)).0.reply_waiters
        ≡ none)
unfolding waiting
answer_kept_example =
    answer_kept two_waiters (finish_wait ("b", "q1") ∷ []) (cancel_every "stopped" ∷ [])
      (cancel_of "a" "gone" ∷ []) "a" "q1" reply_to_q1 0 refl refl refl

-- A reply that comes after the timeout and before the key is forgotten is taken, in vain; a client that
-- is cancelled before the wait begins is not found.
in_vain :
    ((wait_pending_reply ("a", "q1") [] (deliver "a" reply_to_q1 ∷ []) (run empty two_waiters)).1
      ≡ timeout)
    × ((deliver_pending_reply "a" reply_to_q1 (run empty two_waiters)).1 ≡ true)
    × ((wait_pending_reply
          ("a", "q1")
          []
          []
          (run empty (register ("a", "q1") ∷ cancel_of "a" "gone" ∷ []))).1
        ≡ failure "reply not found")
unfolding waiting wait_pending_reply begin_wait
in_vain = (refl, refl, refl)

cancel_client_wakes_example :
    (waiter ("a", "q1") (cancel_client "a" "gone" (run empty two_waiters)).0.reply_waiters
      ≡ (if str_eq "a" "a" then none else some 0))
    × (((cancel_client "a" "gone" (run empty two_waiters)).0.object 0).event
        ≡ (str_eq "a" "a" || ((run empty two_waiters).object 0).event))
    × (((cancel_client "a" "gone" (run empty two_waiters)).0.object 0).message
        ≡ ((run empty two_waiters).object 0).message)
    × (((cancel_client "a" "gone" (run empty two_waiters)).0.object 0).error
        ≡ (if str_eq "a" "a" then some "gone" else ((run empty two_waiters).object 0).error))
unfolding waiting
cancel_client_wakes_example = cancel_client_wakes two_waiters "a" "gone" ("a", "q1") 0 refl

reply_reaches_one_example :
    (((deliver_pending_reply "a" reply_to_q1 (run empty two_waiters)).0.object 0).event
      ≡ (same_key ("a", "q1") ("a", "q1") || ((run empty two_waiters).object 0).event))
    × (((deliver_pending_reply "a" reply_to_q1 (run empty two_waiters)).0.object 0).message ≡ (
        if same_key ("a", "q1") ("a", "q1")
        then some reply_to_q1
        else ((run empty two_waiters).object 0).message))
    × (((deliver_pending_reply "a" reply_to_q1 (run empty two_waiters)).0.object 0).error
        ≡ ((run empty two_waiters).object 0).error)
unfolding waiting
reply_reaches_one_example =
    reply_reaches_one two_waiters "a" "q1" reply_to_q1 ("a", "q1") 0 refl refl

late_reply_refused_example :
    deliver_pending_reply "a" reply_to_q1 (end_wait ("a", "q1") (run empty two_waiters))
    ≡ (end_wait ("a", "q1") (run empty two_waiters), false)
late_reply_refused_example = late_reply_refused two_waiters "a" "q1" reply_to_q1 refl
