-- ===== src/Platform/Broker/Reconnect.antt =====
-- How long a lost connection is waited for, and what comes back with it.
use microservices_base_platf.Prelude.{
  ℕ, zero, suc, ◌+◌, ◌*◌, ◌^◌, ◌≤◌, ◌<◌, ◌≡◌, refl, ap, sym, ◌∙◌, String, true, false, none, some,
  List, [], ◌∷◌, ◌++◌, min, ltb, if◌then◌else◌, arith, Option, Bool, Bool-cases, inl, inr, str_eq,
}
use mathlib.Core.List.{append_assoc}
use native.Mathlib.Nat.{pow-suc}
use microservices_base_platf.Platform.Broker.{
  Subscription, World, Answers, Response, answered, counted, call, fail, not_open, opened,
  close_and_fail, with_channel, bind_queue, declare_exchange, declare_queue_and_exchange, consume,
  start_consuming, set_qos, subscribe_queue, consume_broadcast, bind_broadcast,
  declare_temporary_queue, declare_fanout, subscribe_broadcast, subscribe, next_backoff, connected,
  restore_all, reestablish_from, reestablish,
}

-- The delay before the dial `i`, in seconds: doubled each time, one minute at most.
abbrev pub delay : ℕ → ℕ
delay i = min 60 (2 * 2 ^ i)

next_backoff-delay : (i : ℕ) → next_backoff (delay i) ≡ delay (suc i)
next_backoff-delay i =
    let twice : 2 * 2 ^ suc i ≡ 2 * 2 ^ i * 2 = omega (arith, pow-suc 2 i) in
    rw twice (capped (2 * 2 ^ i))
  where
    capped : (x : ℕ) → (if ltb 60 (min 60 x * 2) then 60 else min 60 x * 2) ≡ min 60 (x * 2)
    capped x = ground arith

-- The delays before the dials `i`, and the `n` dials behind it.
abbrev pub delays : ℕ → ℕ → List ℕ
delays i zero = delay i ∷ []
delays i (suc n) = delay i ∷ delays (suc i) n

module _ {B : Type 0} (a : Answers) (w : World B) where
  from :
      (n fuel i : ℕ) (slept : List ℕ)
      → ((j : ℕ) → a.closed_at j ≡ false)
      → ((j : ℕ) → i ≤ j → j < i + n → (e : String) × (a.dial j ≡ some e))
      → a.dial (i + n) ≡ none
      → n < fuel
      → reestablish_from a fuel i (delay i) slept w ≡ record {
        slept = slept ++ delays i n;
        world = restore_all a w.subs (connected w);
        is_done = true;
      }
  unfolding reestablish_from
  from zero (suc fuel) i slept c f d l = rw (c i, sym (ap a.dial (right_zero i)) ∙ d) refl
    where
      right_zero : (i : ℕ) → i + 0 ≡ i
      right_zero i = omega arith
  from (suc n) (suc fuel) i slept c f d l =
      let (e, g) = f i (omega arith) (omega arith) in
      rw (c i, g, next_backoff-delay i)
        (from n fuel (suc i) (slept ++ delay i ∷ []) c
            (λ j h k. f j (omega arith) (omega (arith, k))) (ap a.dial (moved i n) ∙ d)
            (omega arith)
          ∙ ap
              (λ t. record {
                slept = t;
                world = restore_all a w.subs (connected w);
                is_done = true;
              })
              (append_assoc slept (delay i ∷ []) (delays (suc i) n)))
    where
      moved : (i n : ℕ) → suc i + n ≡ i + suc n
      moved i n = omega arith
  from n zero i slept c f d l = absurd (omega arith)

module _ {B : Type 0} (a : Answers) where
  -- What a subscription on an open connection comes to: it consumes behind the other ones, or a call
  -- that it made, its last one, was answered with the error that it returns, and it does not.
  abbrev pub IsTried : Subscription → World B → Response B → Type 0
  IsTried s w (none, w') =
      (w'.is_open ≡ true) × (w.calls < w'.calls) × (w'.consumers ≡ w.consumers ++ s ∷ [])
  IsTried s w (some e, w') =
      (w'.is_open ≡ true)
      × (w.calls < w'.calls)
      × (w'.consumers ≡ w.consumers)
      × (n : ℕ) × (w.calls ≤ n)
      × (suc n ≡ w'.calls)
      × (a.call n ≡ some e)

  -- Some subscriptions are tried, each one behind the one before, whatever comes of that.
  abbrev pub AreTried : List Subscription → World B → World B → Type 0
  AreTried [] w w' = w' ≡ w
  AreTried (s ∷ ss) w w' = IsTried s w (subscribe a s w) × AreTried ss (subscribe a s w).1 w'

  module _ (s : Subscription) (w : World B) where
    -- Calls may have been made, and nothing else.
    abbrev IsBehind : World B → Type 0
    IsBehind v = (v.is_open ≡ true) × (w.calls ≤ v.calls) × (v.consumers ≡ w.consumers)

    abbrev Tries : (World B → Response B) → Type 0
    Tries next = (v : World B) → IsBehind v → IsTried s w (next v)

    -- What follows a call, when an error of the call ends it.
    by_call :
        (v : World B) (next : World B → Response B) (failed : String → World B → Response B)
        → IsBehind v
        → IsTried s w (next (counted v))
        → ((e : String) → a.call v.calls ≡ some e → IsTried s w (failed e (counted v)))
        → IsTried s w (call a v next failed)
    by_call v next failed b h k = by_answer (a.call v.calls) refl
      where
        by_answer :
            (o : Option String)
            → a.call v.calls ≡ o
            → IsTried s w (answered o (counted v) next failed)
        by_answer none q = h
        by_answer (some e) q = k e q

    call-Tries : (next : World B → Response B) → Tries next → Tries (λ v. call a v next fail)
    call-Tries next t v (o, l, c) =
        by_call v next fail (o, l, c) (t (counted v) (o, omega (arith, l), c))
          (λ e q. (o, omega (arith, l), c, v.calls, l, refl, q))

    closing-Tries :
        (next : World B → Response B) → Tries next → Tries (λ v. call a v next close_and_fail)
    closing-Tries next t v (o, l, c) =
        by_call v next close_and_fail (o, l, c) (t (counted v) (o, omega (arith, l), c))
          (λ e q. (o, omega (arith, l), c, v.calls, l, refl, q))

    consumes :
        (v : World B) (failed : String → World B → Response B)
        → IsBehind v
        → ((e : String) → a.call v.calls ≡ some e → IsTried s w (failed e (counted v)))
        → IsTried s w (call a v (consume s) failed)
    consumes v failed (o, l, c) k =
        by_call v (consume s) failed (o, l, c) (o, omega (arith, l), ap (λ cs. cs ++ s ∷ []) c) k

    channel-Tries : (next : World B → Response B) → Tries next → Tries (λ v. with_channel a v next)
    channel-Tries next t v (o, l, c) = by_connection v.is_open o
      where
        by_connection :
            (b : Bool)
            → b ≡ true
            → IsTried s w (if b then call a v (λ u. next (opened u)) fail else (some not_open, v))
        by_connection true q =
            call-Tries (λ u. next (opened u)) (λ u (p, m, d). t (opened u) (p, m, d)) v (o, l, c)
        by_connection false q = cc

    declare-Tries :
        (exchange : String) (next : World B → Response B)
        → Tries next
        → Tries (declare_queue_and_exchange a exchange next)
    declare-Tries exchange next t = closing-Tries (declare_exchange a exchange next) bound
      where
        bound : Tries (declare_exchange a exchange next)
        bound v h = elim (Bool-cases (str_eq exchange "")) [
          | inl e ↦ rw e (t v h)
          | inr e ↦ rw e (closing-Tries (bind_queue a next) (closing-Tries next t) v h)
        ]

    last_call : Tries (consume_broadcast a s)
    last_call u (o, l, c) =
        consumes u fail (o, l, c) (λ e q. (o, omega (arith, l), c, u.calls, l, refl, q))

    last_close : Tries (start_consuming a s)
    last_close u (o, l, c) =
        consumes u close_and_fail (o, l, c) (λ e q. (o, omega (arith, l), c, u.calls, l, refl, q))

    broadcast-Tries : Tries (subscribe_broadcast a s)
    unfolding subscribe_broadcast
    broadcast-Tries = channel-Tries (declare_fanout a s) (
        call-Tries (declare_temporary_queue a s)
          (call-Tries (bind_broadcast a s) (call-Tries (consume_broadcast a s) last_call)))

    queue-Tries : Tries (subscribe_queue a s)
    unfolding subscribe_queue
    queue-Tries =
        channel-Tries (declare_queue_and_exchange a s.exchange (set_qos a s))
          (declare-Tries s.exchange (set_qos a s) (closing-Tries (start_consuming a s) last_close))

    subscribe-Tries : Tries (subscribe a s)
    subscribe-Tries v h = by_kind s.is_broadcast
      where
        by_kind :
            (b : Bool)
            → IsTried s w (if b then subscribe_broadcast a s v else subscribe_queue a s v)
        by_kind true = broadcast-Tries v h
        by_kind false = queue-Tries v h

  IsTried-open :
      (s : Subscription) (w : World B) (r : Response B) → IsTried s w r → r.1.is_open ≡ true
  IsTried-open s w (none, v) h = h.0
  IsTried-open s w (some e, v) h = h.0

  restore_all-AreTried :
      (ss : List Subscription) (w : World B) → w.is_open ≡ true → AreTried ss w (restore_all a ss w)
  unfolding restore_all
  restore_all-AreTried [] w o = refl
  restore_all-AreTried (s ∷ ss) w o =
      let t = subscribe-Tries s w w (o, omega arith, refl) in
      (t, restore_all-AreTried ss (subscribe a s w).1 (IsTried-open s w (subscribe a s w) t))

-- If the broker is not closed and the connection comes back at the dial `n`, the loop ends there
-- with any fuel above `n`: it has waited 2, 4, 8 … seconds before the dials, one minute at most.
-- On the new connection it has tried every registered subscription, in the order of their
-- registration, each in the state that the one before left: one of which every call is answered
-- consumes again, and an error of a call ends its own subscription and no other.
pub reestablish_ends :
    {B : Type 0} (a : Answers) (w : World B) (n fuel : ℕ)
    → ((j : ℕ) → a.closed_at j ≡ false)
    → ((j : ℕ) → j < n → (e : String) × (a.dial j ≡ some e))
    → a.dial n ≡ none
    → n < fuel
    → ((reestablish a fuel w).slept ≡ delays 0 n)
      × ((reestablish a fuel w).is_done ≡ true)
      × AreTried a w.subs (connected w) (reestablish a fuel w).world
unfolding reestablish
reestablish_ends a w n fuel c f d l =
    let e =
      from a w n fuel 0 [] c (λ j h k. f j (omega (arith, k))) (ap a.dial (left_zero n) ∙ d) l in
    rw e (refl, refl, restore_all-AreTried a w.subs (connected w) refl)
  where
    left_zero : (n : ℕ) → 0 + n ≡ n
    left_zero n = omega arith
