-- ===== src/Notification/Outbox.antt =====
-- services/notification/internal/worker/outbox_worker.go. What the broker and the database answer
-- for an event is an argument; `none` stands for success.
pub mod Table
pub mod Retries
pub mod Delivery
mod Examples
use Prim.Native.String.{◌++◌ as concat}
use microservices_base_platf.Prelude.{
  ℕ, ◌+◌, String, Option, none, some, List, [], ◌∷◌, ◌++◌, leb, if◌then◌else◌,
}
use microservices_base_platf.Notification.Domain.{
  Uuid, Time, Notification, NotificationStatus, NotificationTask, OutboxEvent,
}
use microservices_base_platf.Notification.Repository.{update_delivery_status}
use Table.{claim_pending_batch, mark_published, increment_retry, mark_failed}

pub record Config : Type 0 where
  pub exchange : String
  pub outbox_batch_size : ℕ
  pub outbox_max_retries : ℕ

-- A payload that the broker took.
pub record Publication : Type 0 where
  pub exchange : String
  pub routing_key : String
  pub payload : NotificationTask

pub record World : Type 0 where
  pub outbox : List OutboxEvent
  pub notifications : List Notification
  pub published : List Publication

-- The answers that one event meets. `fail` is that of the transaction around `MarkFailed` and
-- `UpdateDeliveryStatus`, which changes nothing unless both statements and the commit succeed.
pub record Answers : Type 0 where
  pub now : Time
  pub publish : Option String
  pub fail : Option String
  pub increment : Option String
  pub mark : Option String

abbrev pub on_success {ℓ} : {A : Type ℓ} → Option String → A → A → A
on_success none done undone = done
on_success (some e) done undone = undone

abbrev pub publication : Config → OutboxEvent → Publication
publication cfg e = record {
  exchange = cfg.exchange;
  routing_key = e.routing_key;
  payload = e.payload;
}

-- The transaction of the last attempt.
pub give_up : Answers → OutboxEvent → String → World → World
give_up a event message w =
    on_success a.fail
      (record w {
        outbox = mark_failed event.id message w.outbox;
        notifications =
            update_delivery_status a.now event.aggregate_id NotificationStatus.failed
              (concat "outbox publish failed: " message) none none w.notifications;
      })
      w

-- `publishEvent`, by the answer of the broker.
pub after_publish : Config → Answers → OutboxEvent → Option String → World → World
unfolding give_up
after_publish cfg a event (some message) w =
    if leb cfg.outbox_max_retries (event.retry_count + 1)
    then give_up a event message w
    else record w {
      outbox = on_success a.increment (increment_retry event.id message w.outbox) w.outbox;
    }
after_publish cfg a event none w = record w {
  published = w.published ++ publication cfg event ∷ [];
  outbox = on_success a.mark (mark_published a.now event.id w.outbox) w.outbox;
}

unfoldable pub publish_event : Config → Answers → OutboxEvent → World → World
unfolding after_publish
publish_event cfg a event w = after_publish cfg a event a.publish w

pub publish_all : Config → (Uuid → Answers) → List OutboxEvent → World → World
publish_all cfg answers [] w = w
publish_all cfg answers (event ∷ events) w =
    publish_all cfg answers events (publish_event cfg (answers event.id) event w)

-- `processBatch`, where the claim's transaction may fail as well.
unfoldable pub process_batch : Config → Option String → (Uuid → Answers) → World → World
unfolding publish_all
process_batch cfg (some message) answers w = w
process_batch cfg none answers w =
    let (events, rows) = claim_pending_batch cfg.outbox_batch_size w.outbox in
    publish_all cfg answers events (record w { outbox = rows })

-- Rounds of the worker, each with the answers that it meets.
pub run_rounds : Config → List (Option String × (Uuid → Answers)) → World → World
run_rounds cfg [] w = w
run_rounds cfg ((claim, answers) ∷ rounds) w =
    run_rounds cfg rounds (process_batch cfg claim answers w)
