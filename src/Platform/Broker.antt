-- ===== src/Platform/Broker.antt =====
-- pkg/broker/rabbitmq.go and pkg/broker/broker.go: subscriptions over a connection to RabbitMQ, which
-- is opened again when it breaks. What the AMQP library answers to the n-th call is an argument.
pub mod Channels
pub mod Reconnect
pub mod Consumer
mod Examples
use microservices_base_platf.Prelude.{
  ℕ, zero, suc, ◌+◌, ◌-◌, ◌*◌, String, Bool, true, false, Option, none, some, List, [], ◌∷◌, ◌++◌,
  ltb, ◌==◌, str_eq, if◌then◌else◌,
}

-- The handler of a subscription is left out: nothing here calls it. A prefetch that is not
-- positive is given as 0.
pub record Subscription : Type 0 where
  pub queue_name : String
  pub exchange : String
  pub routing_key : String
  pub prefetch : ℕ
  pub is_broadcast : Bool

-- A message that the library took.
pub record Publication (B : Type 0) : Type 0 where
  pub exchange : String
  pub routing_key : String
  pub body : B

-- The registered subscriptions, the channels that are open on the connection, those that consume,
-- and the number of calls of the library so far.
pub record World (B : Type 0) : Type 0 where
  pub is_open : Bool
  pub subs : List Subscription
  pub channels : ℕ
  pub consumers : List Subscription
  pub published : List (Publication B)
  pub calls : ℕ

-- The answers to the n-th call, to the n-th dial, and whether `Close` was called before it.
pub record Answers : Type 0 where
  pub call : ℕ → Option String
  pub dial : ℕ → Option String
  pub closed_at : ℕ → Bool

abbrev pub not_open : String
not_open = "broker: connection is not open"

abbrev pub prefetch_of : Subscription → ℕ
prefetch_of s = if s.prefetch == 0 then 1 else s.prefetch

abbrev pub Response : Type 0 → Type 0
Response B = Option String × World B

abbrev pub next_backoff : ℕ → ℕ
next_backoff seconds = if ltb 60 (seconds * 2) then 60 else seconds * 2

-- The delays in seconds, the state, and whether the loop ended.
pub record Reconnected (B : Type 0) : Type 0 where
  pub slept : List ℕ
  pub world : World B
  pub is_done : Bool

module _ {B : Type 0} where
  abbrev pub answered :
      Option String
      → World B
      → (World B → Response B)
      → (String → World B → Response B)
      → Response B
  answered none w done failed = done w
  answered (some e) w done failed = failed e w

  abbrev pub counted : World B → World B
  counted w = record w { calls = suc w.calls }

  -- A call of the library and what follows it.
  abbrev pub call :
      Answers → World B → (World B → Response B) → (String → World B → Response B) → Response B
  call a w done failed = answered (a.call w.calls) (counted w) done failed

  abbrev pub fail : String → World B → Response B
  fail e w = (some e, w)

  abbrev pub opened : World B → World B
  opened w = record w { channels = suc w.channels }

  abbrev pub close_channel : World B → World B
  close_channel w = record w { channels = w.channels - 1 }

  abbrev pub close_and_fail : String → World B → Response B
  close_and_fail e w = (some e, close_channel w)

  abbrev pub close_and_return : World B → Response B
  close_and_return w = (none, close_channel w)

  -- `conn.Channel()` on an open connection.
  abbrev pub with_channel : Answers → World B → (World B → Response B) → Response B
  with_channel a w next =
      if w.is_open then call a w (λ w'. next (opened w')) fail else (some not_open, w)

  abbrev pub bind_queue : Answers → (World B → Response B) → World B → Response B
  bind_queue a next w = call a w next close_and_fail

  -- Without an exchange there is nothing to bind.
  abbrev pub declare_exchange : Answers → String → (World B → Response B) → World B → Response B
  declare_exchange a exchange next w =
      if str_eq exchange "" then next w else call a w (bind_queue a next) close_and_fail

  -- `declareQueueAndExchange`.
  abbrev pub declare_queue_and_exchange :
      Answers → String → (World B → Response B) → World B → Response B
  declare_queue_and_exchange a exchange next w =
      call a w (declare_exchange a exchange next) close_and_fail

  abbrev pub consume : Subscription → World B → Response B
  consume s w = (none, record w { consumers = w.consumers ++ s ∷ [] })

  abbrev pub start_consuming : Answers → Subscription → World B → Response B
  start_consuming a s w = call a w (consume s) close_and_fail

  abbrev pub set_qos : Answers → Subscription → World B → Response B
  set_qos a s w = call a w (start_consuming a s) close_and_fail

  -- `subscribeQueue`: every error behind the channel closes it.
  unfoldable pub subscribe_queue : Answers → Subscription → World B → Response B
  subscribe_queue a s w = with_channel a w (declare_queue_and_exchange a s.exchange (set_qos a s))

  abbrev pub consume_broadcast : Answers → Subscription → World B → Response B
  consume_broadcast a s w = call a w (consume s) fail

  abbrev pub bind_broadcast : Answers → Subscription → World B → Response B
  bind_broadcast a s w = call a w (consume_broadcast a s) fail

  abbrev pub declare_temporary_queue : Answers → Subscription → World B → Response B
  declare_temporary_queue a s w = call a w (bind_broadcast a s) fail

  abbrev pub declare_fanout : Answers → Subscription → World B → Response B
  declare_fanout a s w = call a w (declare_temporary_queue a s) fail

  -- `subscribeBroadcast`: no error behind the channel closes it.
  unfoldable pub subscribe_broadcast : Answers → Subscription → World B → Response B
  subscribe_broadcast a s w = with_channel a w (declare_fanout a s)

  abbrev pub subscribe : Answers → Subscription → World B → Response B
  subscribe a s w = if s.is_broadcast then subscribe_broadcast a s w else subscribe_queue a s w

  abbrev pub register : Subscription → World B → World B
  register s w = record w { subs = w.subs ++ s ∷ [] }

  -- `QueueSubscribeWithOptions` and `BroadcastSubscribe`: registered first, whatever comes of it.
  unfoldable pub queue_subscribe : Answers → Subscription → World B → Response B
  unfolding subscribe_queue subscribe_broadcast
  queue_subscribe a s w = subscribe a s (register s w)

  -- `QueueDeclare`; the channel is closed in any case.
  unfoldable pub queue_declare : Answers → String → World B → Response B
  queue_declare a exchange w =
      with_channel a w (declare_queue_and_exchange a exchange close_and_return)

  abbrev pub took : String → String → B → World B → Response B
  took exchange key body w = close_and_return (record w {
    published = w.published ++ record { exchange = exchange; routing_key = key; body = body } ∷ [];
  })

  -- The body as JSON, if it has one.
  abbrev pub send : Answers → String → String → Option B → World B → Response B
  send a exchange key none w = close_and_fail "failed to marshal message" w
  send a exchange key (some body) w = call a w (took exchange key body) close_and_fail

  -- `Publish`.
  unfoldable pub publish : Answers → String → String → Option B → World B → Response B
  publish a exchange key body w = with_channel a w (send a exchange key body)

  -- The connection breaks, and with it every channel.
  abbrev pub break : World B → World B
  break w = record w { is_open = false; channels = 0; consumers = [] }

  abbrev pub connected : World B → World B
  connected w = record w { is_open = true }

  -- The subscriptions again, one after the other; an error is logged.
  pub restore_all : Answers → List Subscription → World B → World B
  unfolding subscribe_queue subscribe_broadcast
  restore_all a [] w = w
  restore_all a (s ∷ ss) w = restore_all a ss (subscribe a s w).1

  abbrev pub dialled :
      Answers → Option String → ℕ → List ℕ → World B → Reconnected B → Reconnected B
  dialled a none seconds slept w again = record {
    slept = slept ++ seconds ∷ [];
    world = restore_all a w.subs (connected w);
    is_done = true;
  }
  dialled a (some e) seconds slept w again = again

  -- The loop of `reestablish`, with fuel; `n` counts the dials.
  pub reestablish_from : Answers → ℕ → ℕ → ℕ → List ℕ → World B → Reconnected B
  unfolding restore_all
  reestablish_from a zero n seconds slept w = record { slept = slept; world = w; is_done = false }
  reestablish_from a (suc fuel) n seconds slept w =
      let again =
        reestablish_from a fuel (suc n) (next_backoff seconds) (slept ++ seconds ∷ []) w in
      if a.closed_at n
      then record { slept = slept; world = w; is_done = true }
      else dialled a (a.dial n) seconds slept w again

  unfoldable pub reestablish : Answers → ℕ → World B → Reconnected B
  unfolding reestablish_from
  reestablish a fuel w = reestablish_from a fuel 0 2 [] w
