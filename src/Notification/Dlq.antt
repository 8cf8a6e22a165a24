-- ===== src/Notification/Dlq.antt =====
-- services/notification/internal/service/dlq_service.go and worker/dlq_worker.go, with the
-- statements of repository/dlq_repository.go: messages that the workers have rejected are stored
-- and can be replayed. The decoding of a payload is a parameter, and so is that of an id.
pub mod Laws
pub mod Listing
mod Examples
use microservices_base_platf.Prelude.{
  String, Bool, true, false, Option, none, some, List, [], ◌∷◌, ◌++◌, first, update_where, ◌==◌,
  str_eq, if◌then◌else◌,
}
use microservices_base_platf.Notification.Domain.{
  Uuid, Time, Notification, NotificationStatus, NotificationTask, DlqMessage, DlqStatus,
}
use microservices_base_platf.Notification.Repository.{update_delivery_status}
use microservices_base_platf.Notification.Email.{Publication}

-- What the database and the broker answer; `none` stands for success.
pub record Answers : Type 0 where
  pub now : Time
  pub new_id : Uuid
  pub save : Option String
  pub read : Option String
  pub publish : Option String
  pub update : Option String
  pub update_notification : Option String

pub record World : Type 0 where
  pub messages : List DlqMessage
  pub notifications : List Notification
  pub published : List Publication

pub data ReplayError : Type 0 where
  invalid_id not_found already_replayed malformed_payload publish_failed update_failed : ReplayError

abbrev pub is_replayed : DlqStatus → Bool
is_replayed DlqStatus.pending = false
is_replayed DlqStatus.replayed = true
is_replayed DlqStatus.ignored = false

abbrev pub get_message : Uuid → List DlqMessage → Option DlqMessage
get_message id = first (λ m. m.id == id)

abbrev pub replayed : DlqMessage → DlqMessage
replayed m = record m { status = DlqStatus.replayed }

-- `UpdateStatus`, to `replayed`.
abbrev pub mark_replayed : Uuid → List DlqMessage → List DlqMessage
mark_replayed id = update_where (λ m. m.id == id) replayed

-- The task with a fresh retry count, for the queue that the message came from.
abbrev pub replay_publication : String → DlqMessage → NotificationTask → Publication
replay_publication exchange m task = record {
  exchange = exchange;
  routing_key = m.queue_name;
  task = record task { retry_count = 0 };
}

abbrev pub send : Publication → World → World
send p w = record w { published = w.published ++ p ∷ [] }

module _ (decode : String → Option NotificationTask) (parse_uuid : String → Option Uuid) where
  abbrev pub notification_id_of : Option NotificationTask → Option Uuid
  notification_id_of none = none
  notification_id_of (some task) =
      if str_eq task.notification_id "" then none else parse_uuid task.notification_id

  abbrev pub save_message : Option String → DlqMessage → World → World × Option String
  save_message none m w = (record w { messages = w.messages ++ m ∷ [] }, none)
  save_message (some e) m w = (w, some e)

  -- `saveToDLQ`.
  unfoldable pub save_to_dlq : Answers → String → String → World → World × Option String
  save_to_dlq a queue_name body w =
      save_message a.save
        (record {
          id = a.new_id;
          notification_id = notification_id_of (decode body);
          queue_name = queue_name;
          payload = body;
          error_message = "Failed after max retries or invalid template payload";
          status = DlqStatus.pending;
        })
        w

  -- The status of the notification, if the message has one; an error is ignored.
  abbrev pub reset_notification : Option String → Answers → Option Uuid → World → World
  reset_notification none a (some n) w = record w {
    notifications =
        update_delivery_status a.now n NotificationStatus.pending "Replayed from DLQ" none none
          w.notifications;
  }
  reset_notification none a none w = w
  reset_notification (some e) a n w = w

  -- The lines behind the publication, by the answer to `UpdateStatus`.
  abbrev pub after_publication :
      Option String → Answers → Uuid → DlqMessage → World → World × Option ReplayError
  after_publication none a id m w = (
    reset_notification a.update_notification a m.notification_id
        (record w { messages = mark_replayed id w.messages }),
    none,
  )
  after_publication (some e) a id m w = (w, some update_failed)

  abbrev pub publish_replay :
      Option String
      → String
      → Answers
      → Uuid
      → DlqMessage
      → NotificationTask
      → World
      → World × Option ReplayError
  publish_replay none exchange a id m task w =
      after_publication a.update a id m (send (replay_publication exchange m task) w)
  publish_replay (some e) exchange a id m task w = (w, some publish_failed)

  abbrev pub replay_task :
      Option NotificationTask
      → String
      → Answers
      → Uuid
      → DlqMessage
      → World
      → World × Option ReplayError
  replay_task none exchange a id m w = (w, some malformed_payload)
  replay_task (some task) exchange a id m w = publish_replay a.publish exchange a id m task w

  abbrev pub replay_read :
      Option String
      → Option DlqMessage
      → String
      → Answers
      → Uuid
      → World
      → World × Option ReplayError
  replay_read none (some m) exchange a id w =
      if is_replayed m.status
      then (w, some already_replayed)
      else replay_task (decode m.payload) exchange a id m w
  replay_read none none exchange a id w = (w, some not_found)
  replay_read (some e) row exchange a id w = (w, some not_found)

  abbrev pub replay_parsed : Option Uuid → String → Answers → World → World × Option ReplayError
  replay_parsed none exchange a w = (w, some invalid_id)
  replay_parsed (some id) exchange a w =
      replay_read a.read (get_message id w.messages) exchange a id w

  -- `ReplayDLQMessage`.
  unfoldable pub replay_dlq_message : String → Answers → String → World → World × Option ReplayError
  replay_dlq_message exchange a id_text w = replay_parsed (parse_uuid id_text) exchange a w
