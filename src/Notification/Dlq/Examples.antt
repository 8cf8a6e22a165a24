-- ===== src/Notification/Dlq/Examples.antt =====
-- The dead-letter queue at concrete inputs.
use microservices_base_platf.Prelude.{
  ◌≡◌, ◌≢◌, refl, String, Option, none, some, [], ◌∷◌, str_eq, if◌then◌else◌,
}
use microservices_base_platf.Notification.Domain.{Uuid, NotificationTask, DlqMessage, DlqStatus}
use microservices_base_platf.Notification.Dlq.{
  Answers, World, ReplayError, save_to_dlq, replay_dlq_message,
}
use microservices_base_platf.Notification.Dlq.Laws.{
  IsReplayed, replay_dlq_message_success, replay_dlq_message_once,
}

abbrev task : NotificationTask
task = record {
  notification_id = "n-7";
  user_id = "u";
  event_type = "order_created";
  recipient = "a@b.c";
  channel = "email";
  subject = "Order";
  content = "Thanks";
  retry_count = 3;
}

abbrev decode : String → Option NotificationTask
decode s = if str_eq s "task" then some task else none

abbrev parse_uuid : String → Option Uuid
parse_uuid s = if str_eq s "n-7" then some 7 else if str_eq s "d-1" then some 1 else none

abbrev answers : Answers
answers = record {
  now = 100;
  new_id = 2;
  save = none;
  read = none;
  publish = none;
  update = none;
  update_notification = none;
}

abbrev stored : DlqMessage
stored = record {
  id = 1;
  notification_id = some 7;
  queue_name = "email";
  payload = "task";
  error_message = "Failed after max retries or invalid template payload";
  status = DlqStatus.pending;
}

abbrev world : World
world = record { messages = stored ∷ []; notifications = []; published = [] }

saved_once :
    (save_to_dlq decode parse_uuid
      (record answers { new_id = 1 })
      "email"
      "task"
      (record world { messages = [] })).0
    ≡ world
unfolding save_to_dlq
saved_once = refl

abbrev after : World × Option ReplayError
after = replay_dlq_message decode parse_uuid "notification" answers "d-1" world

replay_dlq_message_success_example :
    (id : Uuid) × (parse_uuid "d-1" ≡ some id)
    × IsReplayed decode parse_uuid "notification" id world after.0
unfolding replay_dlq_message
replay_dlq_message_success_example =
    replay_dlq_message_success decode parse_uuid "notification" answers "d-1" world refl

replay_dlq_message_once_example :
    ((replay_dlq_message decode parse_uuid "notification" answers "d-1" after.0).1 ≢ none)
    × ((replay_dlq_message decode parse_uuid "notification" answers "d-1" after.0).0 ≡ after.0)
unfolding replay_dlq_message
replay_dlq_message_once_example =
    replay_dlq_message_once decode parse_uuid "notification" answers answers "d-1" world refl
