-- ===== src/Replies/Guarantees.antt =====
-- What ReplyHandler guarantees to each waiter (common/reply_handler.py).
use multi_daq.Prelude.{
  ◌||◌, ◌++◌, ◌<◌, Bool, Bool, true, false, Option, none, some, ℕ, String, List, [], ◌∷◌, ◌≡◌, ◌≢◌,
  ap, refl, arith, if◌then◌else◌, ◌==◌, str_eq, eq_iff, Option-cases, Bool-cases, inl, inr, sym,
  ◌∙◌,
}
use multi_daq.Message.Protocol.{text, ProtocolMessage}
use multi_daq.Replies.Handler.{
  outcome, reply, end_wait, cancelled, Key, same_key, PendingReply, ReplyHandler, empty, waiter,
  forget, assign, register_pending_reply, addressee, answered, delivered, deliver_pending_reply,
  end_wait, cancelled, wake, cancel_waiters, cancel_where, cancel_all, cancel_client,
}
use multi_daq.Replies.Waiters.{
  wait_pending_reply-found, wait_pending_reply, run-append, run-registrations, answered_for_good,
  Call, register, deliver, finish_wait, cancel_every, cancel_of, step, run, is_number, is_orderly,
  same_number, same_key_eq, waiter-is_number,
}
use multi_daq.Replies.Isolation.{
  is_orderly-append, is_orderly-forget, is_orderly-keep_waiters, waiter-keep_waiters,
}

-- Keys and numbers of waiters are unique, and the numbers have been given.
abbrev pub IsOrderly : ReplyHandler → Type 0
IsOrderly s = is_orderly s.registrations s.reply_waiters ≡ true

registered-IsOrderly :
    (k : Key) (s : ReplyHandler) → IsOrderly s → IsOrderly (register_pending_reply k s).0
unfolding register_pending_reply
registered-IsOrderly k s o = elim (Option-cases (waiter k s.reply_waiters)) [
  | inl e ↦ rw e (is_orderly-append s.registrations k s.reply_waiters e o)
  | inr (a, e) ↦ rw e o
]

delivered-IsOrderly :
    (a : Option ℕ) (m : ProtocolMessage) (s : ReplyHandler)
    → IsOrderly s
    → IsOrderly (delivered a m s).0
delivered-IsOrderly none m s o = o
delivered-IsOrderly (some a) m s o = o

pub step-IsOrderly : (s : ReplyHandler) (c : Call) → IsOrderly s → IsOrderly (step s c)
unfolding step deliver_pending_reply end_wait cancel_all cancel_client cancel_where
step-IsOrderly s (register k) o = registered-IsOrderly k s o
step-IsOrderly s (deliver c m) o =
    delivered-IsOrderly (addressee c m.in_reply_to s.reply_waiters) m s o
step-IsOrderly s (finish_wait k) o = is_orderly-forget s.registrations k s.reply_waiters o
step-IsOrderly s (cancel_every reason) o =
    is_orderly-keep_waiters s.registrations (λ k. true) s.reply_waiters o
step-IsOrderly s (cancel_of c reason) o =
    is_orderly-keep_waiters s.registrations (λ k. str_eq k.0 c) s.reply_waiters o

pub run-IsOrderly : (s : ReplyHandler) (cs : List Call) → IsOrderly s → IsOrderly (run s cs)
unfolding run
run-IsOrderly s [] o = o
run-IsOrderly s (c ∷ cs) o = run-IsOrderly (step s c) cs (step-IsOrderly s c o)

pub empty-IsOrderly : IsOrderly empty
unfolding is_orderly
empty-IsOrderly = refl

delivered_to :
    (o : Option ℕ) (m : ProtocolMessage) (s : ReplyHandler) (a : ℕ)
    → o ≡ some a
    → (delivered o m s).0.object a ≡ answered m (s.object a)
unfolding assign
delivered_to none m s a e = ground arith
delivered_to (some b) m s a e = ground arith

delivered_elsewhere :
    (o : Option ℕ) (m : ProtocolMessage) (s : ReplyHandler) (a : ℕ)
    → o ≢ some a
    → (delivered o m s).0.object a ≡ s.object a
unfolding assign
delivered_elsewhere none m s a n = refl
delivered_elsewhere (some b) m s a n = elim (Bool-cases (b == a)) [
  | inl e ↦ absurd (n (ground arith))
  | inr e ↦ rw e refl
]

same_key_refl : (k : Key) → same_key k k ≡ true
unfolding same_key
same_key_refl (c, r) = ground (arith, eq_iff c c, eq_iff r r)

waiter-forget :
    (n : ℕ) (k : Key) (ws : List (Key × ℕ)) → is_orderly n ws ≡ true → waiter k (forget k ws) ≡ none
unfolding waiter forget is_orderly
waiter-forget n k [] o = refl
waiter-forget n k ((j, a) ∷ ws) o = elim (Bool-cases (same_key j k)) [
  | inl e ↦ ground (arith, same_key_eq j k e)
  | inr e ↦ ground (arith, waiter-forget n k ws)
]

cancel_waiters-absent :
    (test : Key → Bool) (reason : String) (a : ℕ) (ws : List (Key × ℕ)) (object : ℕ → PendingReply)
    → is_number a ws ≡ false
    → cancel_waiters test reason ws object a ≡ object a
unfolding cancel_waiters is_number wake
cancel_waiters-absent test reason a [] object h = refl
cancel_waiters-absent test reason a ((k, b) ∷ ws) object h =
    ground (arith, cancel_waiters-absent test reason a ws (wake (test k) reason b object))

cancel_waiters-waiter :
    (n : ℕ) (test : Key → Bool) (reason : String) (k : Key) (a : ℕ) (ws : List (Key × ℕ))
    (object : ℕ → PendingReply)
    → is_orderly n ws ≡ true
    → waiter k ws ≡ some a
    → cancel_waiters test reason ws object a
      ≡ (if test k then cancelled reason (object a) else object a)
unfolding cancel_waiters is_orderly waiter wake
cancel_waiters-waiter n test reason k a [] object o e = ground arith
cancel_waiters-waiter n test reason k a ((j, b) ∷ ws) object o e =
    elim (Bool-cases (same_key j k)) [
      | inl p ↦ ground (
        arith,
        same_key_eq j k p,
        cancel_waiters-absent test reason a ws (wake (test j) reason b object),
      )
      | inr p ↦ ground (
        arith,
        waiter-is_number k a ws,
        cancel_waiters-waiter n test reason k a ws (wake (test j) reason b object),
      )
    ]

pub cancel_client-waiter :
    (c reason : String) (s : ReplyHandler) (k : Key) (a : ℕ)
    → IsOrderly s
    → waiter k s.reply_waiters ≡ some a
    → (waiter k (cancel_client c reason s).0.reply_waiters
        ≡ (if str_eq k.0 c then none else some a))
      × ((cancel_client c reason s).0.object a
          ≡ (if str_eq k.0 c then cancelled reason (s.object a) else s.object a))
unfolding cancel_client cancel_where
cancel_client-waiter c reason s k a o e = (
  ground (arith, waiter-keep_waiters k (λ j. str_eq j.0 c) s.reply_waiters),
  cancel_waiters-waiter s.registrations (λ j. str_eq j.0 c) reason k a s.reply_waiters s.object o e,
)

-- Numbers that the list holds have been given.
waiter-given :
    (n : ℕ) (k : Key) (a : ℕ) (ws : List (Key × ℕ))
    → is_orderly n ws ≡ true
    → waiter k ws ≡ some a
    → a < n
unfolding waiter is_orderly
waiter-given n k a [] o e = ground arith
waiter-given n k a ((j, b) ∷ ws) o e = elim (Bool-cases (same_key j k)) [
  | inl p ↦ ground arith
  | inr p ↦ waiter-given n k a ws (ground arith) (ground arith)
]

-- After any calls, a registered waiter that waits gets a reply, and neither an error nor a timeout, if a
-- reply to its request is delivered while it waits and it has not been cancelled before that:
-- whatever else is called in the meantime, and after the delivery, cancellations of its client or of all
-- included. At the end its key is forgotten.
pub answer_kept :
    (cs before after late : List Call) (c r : String) (m : ProtocolMessage) (a : ℕ)
    → m.in_reply_to ≡ text r
    → waiter (c, r) (run empty cs).reply_waiters ≡ some a
    → waiter (c, r) (run (run empty cs) before).reply_waiters ≡ some a
    → ((n : ProtocolMessage) × ((wait_pending_reply
            (c, r)
            (before ++ deliver c m ∷ after)
            late
            (run empty cs)).1
          ≡ reply n))
      × (waiter
            (c, r)
            (wait_pending_reply
              (c, r)
              (before ++ deliver c m ∷ after)
              late
              (run empty cs)).0.reply_waiters
          ≡ none)
unfolding end_wait
answer_kept cs before after late c r m a t e f =
    let s = run empty cs in
    let given = run-registrations a s before (
      waiter-given s.registrations (c, r) a s.reply_waiters (run-IsOrderly empty cs empty-IsOrderly)
        e) in
    let (n, got) = answered_for_good (run s before) c m a after given (rw t f) in
    let during = before ++ deliver c m ∷ after in
    let ended = run (run s during) late in
    let found = wait_pending_reply-found (c, r) during late s a e in
    (
      (
        n,
        ap (λ x. x.1) found
            ∙ ap (λ t. outcome (t.object a)) (run-append s before (deliver c m ∷ after))
            ∙ got,
      ),
      ap (λ x. waiter (c, r) (x.0).reply_waiters) found
          ∙ waiter-forget ended.registrations (c, r) ended.reply_waiters
              (run-IsOrderly _ late
                (run-IsOrderly s during (run-IsOrderly empty cs empty-IsOrderly))),
    )

-- After any calls, `cancel_client` takes away the waiters of that client and no other. The event of
-- each of them is set and its error is the given reason, while its message stays. The objects of
-- the other waiters stay as they are.
pub cancel_client_wakes :
    (cs : List Call) (c reason : String) (k : Key) (a : ℕ)
    → waiter k (run empty cs).reply_waiters ≡ some a
    → (waiter k (cancel_client c reason (run empty cs)).0.reply_waiters
        ≡ (if str_eq k.0 c then none else some a))
      × (((cancel_client c reason (run empty cs)).0.object a).event
          ≡ (str_eq k.0 c || ((run empty cs).object a).event))
      × (((cancel_client c reason (run empty cs)).0.object a).message
          ≡ ((run empty cs).object a).message)
      × (((cancel_client c reason (run empty cs)).0.object a).error
          ≡ (if str_eq k.0 c then some reason else ((run empty cs).object a).error))
cancel_client_wakes cs c reason k a e =
    let (left, object) =
      cancel_client-waiter c reason (run empty cs) k a (run-IsOrderly empty cs empty-IsOrderly) e in
    let (event, message, error) = by_client (str_eq k.0 c) _ _ object in
    (left, event, message, error)
  where
    by_client :
        (b : Bool) (p q : PendingReply)
        → q ≡ (if b then cancelled reason p else p)
        → (q.event ≡ (b || p.event))
          × (q.message ≡ p.message)
          × (q.error ≡ (if b then some reason else p.error))
    by_client b p q h = ground arith

reached :
    (cs : List Call) (c r : String) (m : ProtocolMessage) (k : Key) (a : ℕ)
    → m.in_reply_to ≡ text r
    → waiter k (run empty cs).reply_waiters ≡ some a
    → (deliver_pending_reply c m (run empty cs)).0.object a ≡ (
        if same_key (c, r) k then answered m ((run empty cs).object a) else (run empty cs).object a)
unfolding deliver_pending_reply
reached cs c r m k a t e = elim (Bool-cases (same_key (c, r) k)) [
  | inl p ↦ rw p (
      delivered_to (addressee c m.in_reply_to s.reply_waiters) m s a
        (addressed ∙ ap (λ j. waiter j s.reply_waiters) (same_key_eq (c, r) k p) ∙ e))
  | inr p ↦ rw p (
      delivered_elsewhere (addressee c m.in_reply_to s.reply_waiters) m s a (λ f. other p (
        same_number s.registrations (c, r) k a s.reply_waiters
          (run-IsOrderly empty cs empty-IsOrderly) (sym addressed ∙ f) e)))
]
  where
    s : ReplyHandler
    s = run empty cs

    addressed : addressee c m.in_reply_to s.reply_waiters ≡ waiter (c, r) s.reply_waiters
    addressed = ap (λ j. addressee c j s.reply_waiters) t

    other : same_key (c, r) k ≡ false → (c, r) ≢ k
    other p q = ground (arith, ap (same_key (c, r)) q, same_key_refl (c, r))

-- After any calls, a reply is put into the waiter of its own client and request, whose event is set, and
-- changes the object of no other waiter.
pub reply_reaches_one :
    (cs : List Call) (c r : String) (m : ProtocolMessage) (k : Key) (a : ℕ)
    → m.in_reply_to ≡ text r
    → waiter k (run empty cs).reply_waiters ≡ some a
    → (((deliver_pending_reply c m (run empty cs)).0.object a).event
        ≡ (same_key (c, r) k || ((run empty cs).object a).event))
      × (((deliver_pending_reply c m (run empty cs)).0.object a).message
          ≡ (if same_key (c, r) k then some m else ((run empty cs).object a).message))
      × (((deliver_pending_reply c m (run empty cs)).0.object a).error
          ≡ ((run empty cs).object a).error)
reply_reaches_one cs c r m k a t e = by_key (same_key (c, r) k) _ _ (reached cs c r m k a t e)
  where
    by_key :
        (b : Bool) (p q : PendingReply)
        → q ≡ (if b then answered m p else p)
        → (q.event ≡ (b || p.event))
          × (q.message ≡ (if b then some m else p.message))
          × (q.error ≡ p.error)
    by_key b p q h = ground arith

-- After any calls, once a wait has ended, in whatever way, a reply to its request is refused and
-- changes nothing.
pub late_reply_refused :
    (cs : List Call) (c r : String) (m : ProtocolMessage)
    → m.in_reply_to ≡ text r
    → deliver_pending_reply c m (end_wait (c, r) (run empty cs))
      ≡ (end_wait (c, r) (run empty cs), false)
unfolding deliver_pending_reply end_wait
late_reply_refused cs c r m t =
    rw
      (
        t,
        waiter-forget (run empty cs).registrations (c, r) (run empty cs).reply_waiters
            (run-IsOrderly empty cs empty-IsOrderly),
      )
      refl
