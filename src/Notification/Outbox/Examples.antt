-- ===== src/Notification/Outbox/Examples.antt =====
-- The outbox worker at concrete inputs.
use microservices_base_platf.Prelude.{ℕ, ◌≡◌, refl, none, some, [], ◌∷◌, ◌==◌, if◌then◌else◌, arith}
use microservices_base_platf.Notification.Domain.{Uuid, NotificationTask, OutboxEvent, OutboxStatus}
use microservices_base_platf.Notification.Outbox.{
  Config, World, Answers, publication, process_batch, run_rounds,
}
use microservices_base_platf.Notification.Outbox.Delivery.{
  rows_of, process_batch-published, run_rounds-strands,
}
use microservices_base_platf.Notification.Outbox.Retries.{IsValid, run_rounds-IsValid}

abbrev config : Config
config = record { exchange = "notification"; outbox_batch_size = 2; outbox_max_retries = 3 }

abbrev payload : NotificationTask
payload = record {
  notification_id = "n";
  user_id = "u";
  event_type = "order_created";
  recipient = "a@b.c";
  channel = "email";
  subject = "Order";
  content = "Thanks";
  retry_count = 0;
}

abbrev event : Uuid → ℕ → OutboxStatus → OutboxEvent
event id created_at status = record {
  id = id;
  aggregate_id = id;
  aggregate_type = "notification";
  event_type = "order_created";
  payload = payload;
  routing_key = "email";
  status = status;
  retry_count = 1;
  last_error = none;
  published_at = none;
  created_at = created_at;
}

-- Three pending rows, the second one the oldest, and one that a worker claimed and left.
abbrev world : World
world = record {
  outbox =
      event 1 30 OutboxStatus.pending
      ∷ event 2 10 OutboxStatus.pending
      ∷ event 3 20 OutboxStatus.pending
      ∷ event 4 5 OutboxStatus.processing
      ∷ [];
  notifications = [];
  published = [];
}

abbrev fine : Answers
fine = record { now = 100; publish = none; fail = none; increment = none; mark = none }

-- The broker refuses the event 3.
abbrev answers : Uuid → Answers
answers id = if id == 3 then record fine { publish = some "nack" } else fine

-- The two oldest pending rows are claimed, and the broker takes the first of them.
process_batch-published_example :
    (process_batch config none answers world).published
    ≡ publication config (event 2 10 OutboxStatus.pending) ∷ []
process_batch-published_example = process_batch-published config answers world

run_rounds-strands_example :
    rows_of 4
      (run_rounds config
        ((none, answers) ∷ (some "deadlock", answers) ∷ (none, answers) ∷ [])
        world).outbox
    ≡ event 4 5 OutboxStatus.processing ∷ []
run_rounds-strands_example =
    run_rounds-strands config ((none, answers) ∷ (some "deadlock", answers) ∷ (none, answers) ∷ [])
      4 world (refl, tt)

run_rounds-IsValid_example :
    IsValid 3
      (run_rounds config ((none, answers) ∷ (none, answers) ∷ (none, answers) ∷ []) world).outbox
run_rounds-IsValid_example =
    run_rounds-IsValid config ((none, answers) ∷ (none, answers) ∷ (none, answers) ∷ []) world
      (record { unique = ground arith; below = ground arith })
