-- ===== src/Replies/Isolation.antt =====
-- The waiters of ReplyHandler do not disturb each other (common/reply_handler.py).
use multi_daq.Prelude.{
  Bool, true, false, none, ℕ, suc, List, [], ◌∷◌, ◌++◌, ◌≡◌, arith, if◌then◌else◌, ◌==◌, ◌||◌,
  eq_iff, Bool-cases, inl, inr,
}
use multi_daq.Replies.Handler.{Key, same_key, waiter, forget, keep_waiters}
use multi_daq.Replies.Waiters.{is_number, is_orderly, same_key_eq}

module _ (a : ℕ) where
  is_number-append :
      (k : Key) (n : ℕ) (ws : List (Key × ℕ))
      → is_number a (ws ++ (k, n) ∷ []) ≡ (is_number a ws || a == n)
  unfolding is_number
  is_number-append k n [] = ground arith
  is_number-append k n (w ∷ ws) = ground (arith, is_number-append k n ws)

  is_number-forget :
      (k : Key) (ws : List (Key × ℕ)) → is_number a ws ≡ false → is_number a (forget k ws) ≡ false
  unfolding is_number forget
  is_number-forget k [] h = h
  is_number-forget k (w ∷ ws) h = ground (arith, is_number-forget k ws)

  is_number-keep_waiters :
      (test : Key → Bool) (ws : List (Key × ℕ))
      → is_number a ws ≡ false
      → is_number a (keep_waiters test ws) ≡ false
  unfolding is_number keep_waiters
  is_number-keep_waiters test [] h = h
  is_number-keep_waiters test (w ∷ ws) h = ground (arith, is_number-keep_waiters test ws)

module _ (j : Key) where
  waiter-append :
      (k : Key) (n : ℕ) (ws : List (Key × ℕ))
      → waiter j ws ≡ none
      → same_key k j ≡ false
      → waiter j (ws ++ (k, n) ∷ []) ≡ none
  unfolding waiter
  waiter-append k n [] h e = ground arith
  waiter-append k n (w ∷ ws) h e = ground (arith, waiter-append k n ws)

  waiter-none-forget :
      (k : Key) (ws : List (Key × ℕ)) → waiter j ws ≡ none → waiter j (forget k ws) ≡ none
  unfolding waiter forget
  waiter-none-forget k [] h = h
  waiter-none-forget k (w ∷ ws) h = ground (arith, waiter-none-forget k ws)

  -- A waiter is left exactly if its key does not pass the test.
  pub waiter-keep_waiters :
      (test : Key → Bool) (ws : List (Key × ℕ))
      → waiter j (keep_waiters test ws) ≡ (if test j then none else waiter j ws)
  unfolding waiter keep_waiters
  waiter-keep_waiters test [] = ground arith
  waiter-keep_waiters test ((k, a) ∷ ws) = elim (Bool-cases (same_key k j)) [
    | inl e ↦ ground (arith, waiter-keep_waiters test ws, same_key_eq k j e)
    | inr e ↦ ground (arith, waiter-keep_waiters test ws)
  ]

same_key-sym : (k j : Key) → same_key k j ≡ same_key j k
unfolding same_key
same_key-sym (c, r) (d, q) = ground (arith, eq_iff c d, eq_iff d c, eq_iff r q, eq_iff q r)

module _ (n : ℕ) where
  pub is_orderly-append :
      (k : Key) (ws : List (Key × ℕ))
      → waiter k ws ≡ none
      → is_orderly n ws ≡ true
      → is_orderly (suc n) (ws ++ (k, n) ∷ []) ≡ true
  unfolding is_orderly waiter is_number
  is_orderly-append k [] h o = ground arith
  is_orderly-append k ((j, a) ∷ ws) h o = ground (
    arith,
    is_orderly-append k ws,
    is_number-append a k n ws,
    waiter-append j k n ws,
    same_key-sym k j,
  )

  pub is_orderly-forget :
      (k : Key) (ws : List (Key × ℕ)) → is_orderly n ws ≡ true → is_orderly n (forget k ws) ≡ true
  unfolding is_orderly forget
  is_orderly-forget k [] o = o
  is_orderly-forget k ((j, a) ∷ ws) o =
      ground (arith, is_orderly-forget k ws, is_number-forget a k ws, waiter-none-forget j k ws)

  pub is_orderly-keep_waiters :
      (test : Key → Bool) (ws : List (Key × ℕ))
      → is_orderly n ws ≡ true
      → is_orderly n (keep_waiters test ws) ≡ true
  unfolding is_orderly keep_waiters
  is_orderly-keep_waiters test [] o = o
  is_orderly-keep_waiters test ((j, a) ∷ ws) o = ground (
    arith,
    is_orderly-keep_waiters test ws,
    is_number-keep_waiters a test ws,
    waiter-keep_waiters j test ws,
  )
