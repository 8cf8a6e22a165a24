-- ===== src/Platform/Broker/Examples.antt =====
-- The broker at concrete inputs.
use microservices_base_platf.Prelude.{
  ℕ, suc, ◌+◌, ◌<◌, ◌≡◌, refl, String, Bool, true, false, Option, none, some, List, [], ◌∷◌, ltb,
  ◌==◌, if◌then◌else◌, arith,
}
use microservices_base_platf.Platform.Broker.{
  Subscription, World, Answers, connected, subscribe_queue, subscribe_broadcast, queue_declare,
  publish, reestablish,
}
use microservices_base_platf.Platform.Broker.Channels.{IsBalanced, subscribe_queue-IsBalanced}
use microservices_base_platf.Platform.Broker.Reconnect.{AreTried, reestablish_ends}
use microservices_base_platf.Platform.Broker.Consumer.{
  Consumer, Queue, IsQueue, IsConserved, one_if, count, consume_all, consume_all-IsConserved,
}

abbrev email : Subscription
email = record {
  queue_name = "email";
  exchange = "notification";
  routing_key = "email";
  prefetch = 0;
  is_broadcast = false;
}

abbrev news : Subscription
news = record email { is_broadcast = true }

abbrev world : World ℕ
world = record {
  is_open = true;
  subs = email ∷ [];
  channels = 0;
  consumers = [];
  published = [];
  calls = 0;
}

-- The third call fails, and the first three dials.
abbrev answers : Answers
answers = record {
  call = λ n. if n == 2 then some "denied" else none;
  dial = λ n. if ltb n 3 then some "refused" else none;
  closed_at = λ n. false;
}

subscribe_queue-IsBalanced_example :
    IsBalanced (subscribe_queue answers email world).1
    × IsBalanced (queue_declare answers "notification" world).1
    × IsBalanced (publish answers "notification" "email" (some 7) world).1
subscribe_queue-IsBalanced_example =
    subscribe_queue-IsBalanced answers email "notification" "email" (some 7) world refl

denied : (subscribe_broadcast answers news world).0 ≡ some "denied"
unfolding subscribe_broadcast
denied = refl

refused : (j : ℕ) → j < 3 → (e : String) × ((if ltb j 3 then some "refused" else none) ≡ some e)
refused j h = ("refused", ground arith)

reestablish_ends_example :
    ((reestablish answers 10 world).slept ≡ 2 ∷ 4 ∷ 8 ∷ 16 ∷ [])
    × ((reestablish answers 10 world).is_done ≡ true)
    × AreTried answers (email ∷ []) (connected world) (reestablish answers 10 world).world
reestablish_ends_example =
    reestablish_ends answers world 3 10 (λ j. refl) refused refl (omega arith)

-- The queue and its dead-letter queue as two lists.
abbrev front : List ℕ × List ℕ → Option (ℕ × (List ℕ × List ℕ))
front ([], dead) = none
front (b ∷ bs, dead) = some (b, (bs, dead))

abbrev lists : Queue (List ℕ × List ℕ) ℕ
lists = record {
  next = front;
  put_back = λ b q. (b ∷ q.0, q.1);
  dead_letter = λ b q. (q.0, b ∷ q.1);
  holds = λ q p. count p q.0 + count p q.1;
}

holds-front :
    (q : List ℕ × List ℕ) (b : ℕ) (q' : List ℕ × List ℕ) (p : ℕ → Bool)
    → front q ≡ some (b, q')
    → lists.holds q p ≡ lists.holds q' p + one_if (p b)
holds-front ([], dead) b q' p h = cc
holds-front (x ∷ xs, dead) b (ys, d) p h =
    let same : x ≡ b = cc in
    let tail : xs ≡ ys = cc in let rest : dead ≡ d = cc in rw (same, tail, rest) (omega arith)

lists-IsQueue : IsQueue lists
lists-IsQueue = record {
  holds-next = holds-front;
  holds-put_back = λ b q p. omega arith;
  holds-dead_letter = λ b q p. omega arith;
}

-- Takes numbers below 4, rejects 5 and asks again for the other ones.
abbrev consumer : Consumer ℕ ℕ ℕ
consumer = record {
  handler = λ b s. (suc s, if ltb b 4 then none else some b);
  is_reject = λ e. e == 5;
}

consume_all-IsConserved_example :
    IsConserved consumer lists
      (2 ∷ 5 ∷ 9 ∷ [], [])
      (consume_all consumer lists 4 (2 ∷ 5 ∷ 9 ∷ [], []) 0)
consume_all-IsConserved_example =
    consume_all-IsConserved consumer lists 4 (2 ∷ 5 ∷ 9 ∷ [], []) 0 lists-IsQueue
