-- ===== src/Platform/Broker/Consumer.antt =====
-- pkg/broker/rabbitmq.go, `handleMessages`: what becomes of a delivery, by the handler's answer, and
-- of the messages of a queue. The queue is RabbitMQ's: an interface with the laws that it documents.
-- The loop ignores the errors of `Ack` and `Nack`, and so does the model: a settlement takes effect.
use microservices_base_platf.Prelude.{
  ℕ, zero, suc, ◌+◌, ◌≡◌, refl, ◌∙◌, Bool, true, false, Option, none, some, List, [], ◌∷◌, All,
  if◌then◌else◌, Bool-cases, inl, inr, arith,
}

-- `Ack`, `Nack` with requeue, and `Nack` without.
pub data Settlement : Type 0 where
  ack requeue reject : Settlement

-- What the `select` of the loop receives.
pub data Incoming (B : Type 0) : Type 0 where
  context_done channel_closed : Incoming B
  delivery : B → Incoming B

-- A handler of bodies on a state `S`; `none` is success, and `is_reject` tells `ErrRejectToDLQ`.
pub record Consumer (B S E : Type 0) : Type 0 where
  pub handler : B → S → S × Option E
  pub is_reject : E → Bool

module _ {B S E : Type 0} (c : Consumer B S E) where
  abbrev pub settlement_of : Option E → Settlement
  settlement_of none = ack
  settlement_of (some e) = if c.is_reject e then reject else requeue

  -- The loop, until the context is done or the channel closed, and what was settled how.
  unfoldable pub handle_messages : List (Incoming B) → S → List (B × Settlement) × S
  handle_messages [] s = ([], s)
  handle_messages (context_done ∷ rest) s = ([], s)
  handle_messages (channel_closed ∷ rest) s = ([], s)
  handle_messages (delivery b ∷ rest) s =
      let (s', e) = c.handler b s in
      let (settled, end) = handle_messages rest s' in ((b, settlement_of e) ∷ settled, end)

-- A queue with its dead-letter queue. `holds q p` counts the messages in both that pass a test.
pub record Queue (Q B : Type 0) : Type 0 where
  pub next : Q → Option (B × Q)
  pub put_back : B → Q → Q
  pub dead_letter : B → Q → Q
  pub holds : Q → (B → Bool) → ℕ

abbrev pub one_if : Bool → ℕ
one_if true = 1
one_if false = 0

-- What RabbitMQ documents: a delivered message is out of the queue, a requeued one is back in it,
-- and a rejected one is in the dead-letter queue.
pub record IsQueue {Q B : Type 0} (m : Queue Q B) : Type 0 where
  pub holds-next :
      (q : Q) (b : B) (q' : Q) (p : B → Bool)
      → m.next q ≡ some (b, q')
      → m.holds q p ≡ m.holds q' p + one_if (p b)
  pub holds-put_back :
      (b : B) (q : Q) (p : B → Bool) → m.holds (m.put_back b q) p ≡ m.holds q p + one_if (p b)
  pub holds-dead_letter :
      (b : B) (q : Q) (p : B → Bool) → m.holds (m.dead_letter b q) p ≡ m.holds q p + one_if (p b)

-- How many elements pass a test.
abbrev pub count : {B : Type 0} → (B → Bool) → List B → ℕ
count p [] = 0
count p (b ∷ bs) = one_if (p b) + count p bs

module _ {B S E Q : Type 0} (c : Consumer B S E) (m : Queue Q B) where
  -- The queue after a settlement.
  abbrev pub settle : Settlement → B → Q → Q
  settle ack b q = q
  settle requeue b q = m.put_back b q
  settle reject b q = m.dead_letter b q

  -- The messages that were acknowledged, the queue and the state.
  pub record Consumed : Type 0 where
    pub acked : List B
    pub queue : Q
    pub state : S

  abbrev pub acked_by : Settlement → B → List B → List B
  acked_by ack b bs = b ∷ bs
  acked_by requeue b bs = bs
  acked_by reject b bs = bs

  abbrev pub delivered : B → Q → S × Option E → (Q → S → Consumed) → Consumed
  delivered b q (s, e) rest =
      let r = rest (settle (settlement_of c e) b q) s in
      record r { acked = acked_by (settlement_of c e) b r.acked }

  -- An empty queue delivers nothing.
  abbrev pub after_next : Option (B × Q) → Q → S → (Q → S → Consumed) → Consumed
  after_next none q s rest = record { acked = []; queue = q; state = s }
  after_next (some (b, q')) q s rest = delivered b q' (c.handler b s) rest

  -- Deliveries of one consumer, one after the other.
  pub consume_all : ℕ → Q → S → Consumed
  consume_all zero q s = record { acked = []; queue = q; state = s }
  consume_all (suc n) q s = after_next (m.next q) q s (consume_all n)

  -- The handler has taken the message at some point.
  abbrev pub IsTaken : B → Type 0
  IsTaken b = (s : S) × ((c.handler b s).1 ≡ none)

  settle-holds :
      IsQueue m
      → (x : Settlement) (b : B) (q : Q) (bs : List B) (p : B → Bool)
      → m.holds (settle x b q) p + count p (acked_by x b bs)
        ≡ m.holds q p + (one_if (p b) + count p bs)
  settle-holds laws ack b q bs p = refl
  settle-holds laws requeue b q bs p = omega (arith, laws.holds-put_back b q p)
  settle-holds laws reject b q bs p = omega (arith, laws.holds-dead_letter b q p)

  pub record IsConserved (q : Q) (r : Consumed) : Type 0 where
    pub conserved : (p : B → Bool) → m.holds q p ≡ m.holds r.queue p + count p r.acked
    pub taken : All IsTaken r.acked

  delivered-IsConserved :
      IsQueue m
      → (b : B) (q : Q) (x : S × Option E) (rest : Q → S → Consumed) → (x.1 ≡ none → IsTaken b)
      → ((q' : Q) (s' : S) → IsConserved q' (rest q' s'))
      → (p : B → Bool)
      → (m.holds q p + one_if (p b)
          ≡ m.holds (delivered b q x rest).queue p + count p (delivered b q x rest).acked)
        × All IsTaken (delivered b q x rest).acked
  delivered-IsConserved laws b q (s, e) rest t k p =
      let x = settlement_of c e in
      let r = rest (settle x b q) s in
      let h = k (settle x b q) s in
      (
        omega (arith, h.conserved p, settle-holds laws x b q r.acked p),
        by_error e r.acked t h.taken,
      )
    where
      by_error :
          (e : Option E) (bs : List B)
          → (e ≡ none → IsTaken b)
          → All IsTaken bs
          → All IsTaken (acked_by (settlement_of c e) b bs)
      by_error none bs t h = (t refl, h)
      by_error (some e) bs t h = elim (Bool-cases (c.is_reject e)) [
        | inl y ↦ rw y h
        | inr y ↦ rw y h
      ]

  after_next-IsConserved :
      IsQueue m
      → (o : Option (B × Q)) (q : Q) (s : S) (rest : Q → S → Consumed) → m.next q ≡ o
      → ((q' : Q) (s' : S) → IsConserved q' (rest q' s'))
      → IsConserved q (after_next o q s rest)
  after_next-IsConserved laws none q s rest e k = record {
    conserved = λ p. omega arith;
    taken = tt;
  }
  after_next-IsConserved laws (some (b, q')) q s rest e k =
      let h = delivered-IsConserved laws b q' (c.handler b s) rest (λ t. (s, t)) k in
      record { conserved = λ p. laws.holds-next q b q' p e ∙ (h p).0; taken = (h (λ b. true)).1 }

-- No message is lost and none is made up: whatever the handler does, after any number of deliveries
-- every message that the queue and its dead-letter queue held before is still in one of them, or
-- was acknowledged, as often as before; and each acknowledged one was taken by the handler without
-- an error.
pub consume_all-IsConserved :
    {B S E Q : Type 0} (c : Consumer B S E) (m : Queue Q B) (n : ℕ) (q : Q) (s : S)
    → IsQueue m
    → IsConserved c m q (consume_all c m n q s)
unfolding consume_all
consume_all-IsConserved c m zero q s laws = record { conserved = λ p. omega arith; taken = tt }
consume_all-IsConserved c m (suc n) q s laws =
    after_next-IsConserved c m laws (m.next q) q s _ refl
      (λ q' s'. consume_all-IsConserved c m n q' s' laws)
