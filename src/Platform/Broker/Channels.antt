-- ===== src/Platform/Broker/Channels.antt =====
-- Which channels stay open.
use microservices_base_platf.Prelude.{
  suc, ◌≡◌, ap, String, Bool, true, false, Option, none, some, [], ◌∷◌, length, length-append, inl,
  inr, str_eq, if◌then◌else◌, Bool-cases, arith,
}
use microservices_base_platf.Platform.Broker.{
  Subscription, World, Answers, Response, answered, counted, call, fail, not_open, opened,
  close_and_fail, close_and_return, with_channel, bind_queue, declare_exchange,
  declare_queue_and_exchange, consume, start_consuming, set_qos, consume_broadcast, bind_broadcast,
  declare_temporary_queue, declare_fanout, subscribe_queue, subscribe_broadcast, queue_declare,
  took, send, publish,
}

-- Each open channel belongs to a consumer.
abbrev pub IsBalanced : {B : Type 0} → World B → Type 0
IsBalanced w = w.channels ≡ length w.consumers

-- One channel more, on its way to a consumer or to its closing.
abbrev IsOpened : {B : Type 0} → World B → Type 0
IsOpened w = w.channels ≡ suc (length w.consumers)

module _ {B : Type 0} (a : Answers) where
  -- A property of what follows a call, on either answer.
  by_call :
      (P : Response B → Type 0) (w : World B) (done : World B → Response B)
      (failed : String → World B → Response B)
      → P (done (counted w))
      → ((e : String) → P (failed e (counted w)))
      → P (call a w done failed)
  by_call P w done failed h k = by_answer (a.call w.calls)
    where
      by_answer : (o : Option String) → P (answered o (counted w) done failed)
      by_answer none = h
      by_answer (some e) = k e

  abbrev Balances : Response B → Type 0
  Balances r = IsBalanced r.1

  -- A step that comes out balanced from one channel more.
  abbrev IsSafe : (World B → Response B) → Type 0
  IsSafe next = (w : World B) → IsOpened w → IsBalanced (next w).1

  close-IsSafe : IsSafe close_and_return
  close-IsSafe w h = omega (arith, h)

  call-IsSafe :
      (next : World B → Response B) → IsSafe next → IsSafe (λ w. call a w next close_and_fail)
  call-IsSafe next k w h =
      by_call Balances w next close_and_fail (k (counted w) h) (λ x. close-IsSafe (counted w) h)

  by_channel :
      (w : World B) (next : World B → Response B)
      → IsBalanced w
      → IsSafe next
      → IsBalanced (with_channel a w next).1
  by_channel w next h k = by_connection w.is_open
    where
      by_connection :
          (b : Bool)
          → IsBalanced (if b then call a w (λ w'. next (opened w')) fail else (some not_open, w)).1
      by_connection true =
          by_call Balances w (λ w'. next (opened w')) fail (k (opened (counted w)) (ap suc h))
            (λ x. h)
      by_connection false = h

  declare-IsSafe :
      (exchange : String) (next : World B → Response B)
      → IsSafe next
      → IsSafe (declare_queue_and_exchange a exchange next)
  declare-IsSafe exchange next k = call-IsSafe (declare_exchange a exchange next) bound
    where
      bound : IsSafe (declare_exchange a exchange next)
      bound w h = elim (Bool-cases (str_eq exchange "")) [
        | inl e ↦ rw e (k w h)
        | inr e ↦ rw e (call-IsSafe (bind_queue a next) (call-IsSafe next k) w h)
      ]

  consume-IsSafe : (s : Subscription) → IsSafe (consume s)
  consume-IsSafe s w h = omega (arith, h, length-append w.consumers (s ∷ []))

  send-IsSafe : (exchange key : String) (body : Option B) → IsSafe (send a exchange key body)
  send-IsSafe exchange key none w h = close-IsSafe w h
  send-IsSafe exchange key (some b) w h =
      call-IsSafe (took exchange key b) (λ w' h'. omega (arith, h')) w h

-- Whatever the library answers, a subscription to a queue, the declaration of a queue and a
-- publication leave no channel open that has no consumer, if there was none before.
pub subscribe_queue-IsBalanced :
    {B : Type 0} (a : Answers) (s : Subscription) (exchange key : String) (body : Option B)
    (w : World B)
    → IsBalanced w
    → IsBalanced (subscribe_queue a s w).1
      × IsBalanced (queue_declare a exchange w).1
      × IsBalanced (publish a exchange key body w).1
unfolding subscribe_queue queue_declare publish
subscribe_queue-IsBalanced a s exchange key body w h = (
  by_channel a w (declare_queue_and_exchange a s.exchange (set_qos a s)) h (
      declare-IsSafe a s.exchange (set_qos a s)
        (call-IsSafe a (start_consuming a s) (call-IsSafe a (consume s) (consume-IsSafe a s)))),
  by_channel a w (declare_queue_and_exchange a exchange close_and_return) h
      (declare-IsSafe a exchange close_and_return (close-IsSafe a)),
  by_channel a w (send a exchange key body) h (send-IsSafe a exchange key body),
)

-- A response that, if it is this error, leaves one channel open without a consumer.
abbrev Leaks : {B : Type 0} → String → Response B → Type 0
Leaks e r = r.0 ≡ some e → IsOpened r.1

fail-Leaks :
    {B : Type 0} (a : Answers) (e : String) (next : World B → Response B) (w : World B)
    → ((w' : World B) → IsOpened w' → Leaks e (next w'))
    → IsOpened w
    → Leaks e (call a w next fail)
fail-Leaks a e next w k h = by_call a (Leaks e) w next fail (k (counted w) h) (λ x n. h)

-- Once a broadcast subscription has opened its channel, an error leaves it open without a consumer.
subscribe_broadcast_leaks :
    {B : Type 0} (a : Answers) (s : Subscription) (w : World B) (e : String)
    → IsBalanced w
    → w.is_open ≡ true
    → a.call w.calls ≡ none
    → (subscribe_broadcast a s w).0 ≡ some e
    → (subscribe_broadcast a s w).1.channels ≡ suc (length (subscribe_broadcast a s w).1.consumers)
unfolding subscribe_broadcast
subscribe_broadcast_leaks a s w e h o n = by_connection w.is_open o
  where
    opens :
        (x : Option String)
        → x ≡ none
        → Leaks e (answered x (counted w) (λ w'. declare_fanout a s (opened w')) fail)
    opens none q =
        fail-Leaks a e (declare_temporary_queue a s) (opened (counted w))
          (λ w2 h2.
            fail-Leaks a e (bind_broadcast a s) w2
              (λ w3 h3.
                fail-Leaks a e (consume_broadcast a s) w3
                  (λ w4 h4. fail-Leaks a e (consume s) w4 (λ w5 h5 k. cc) h4) h3)
              h2)
          (ap suc h)
    opens (some x) q = cc

    by_connection :
        (b : Bool)
        → b ≡ true
        → Leaks e
            (if b then call a w (λ w'. declare_fanout a s (opened w')) fail else (some not_open, w))
    by_connection true q = opens (a.call w.calls) n
    by_connection false q = cc
