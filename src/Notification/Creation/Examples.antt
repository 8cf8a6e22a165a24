-- ===== src/Notification/Creation/Examples.antt =====
-- Requests at concrete inputs.
use microservices_base_platf.Prelude.{String, true, false, none, some, [], ◌∷◌, str_eq, not}
use microservices_base_platf.Notification.Domain.{
  NotificationPreference, NotificationTemplate, event_promotion,
}
use microservices_base_platf.Notification.Preferences
use microservices_base_platf.Notification.Preferences.{is_enabled}
use microservices_base_platf.Notification.Creation.{
  Library, SendRequest, World, Answers, create_from_template,
}
use microservices_base_platf.Notification.Creation.Accepted.{
  IsOutcome, create_from_template-IsOutcome,
}

-- The payload is the recipient, and a template has no fields.
abbrev library : Library String String
library = record {
  render = λ t p. some t;
  marshal = λ m. some m;
  recipient_of = λ p. some p;
  is_address = λ s. not (str_eq s "?");
  text_of = λ id. "77";
}

abbrev preference : NotificationPreference
preference = record {
  id = 1;
  user_id = "u";
  event_type = event_promotion;
  channel = "email";
  enabled = false;
  updated_at = 5;
  deleted_at = none;
}

abbrev world : World
world = record {
  notifications = [];
  outbox = [];
  preferences = record { rows = preference ∷ []; cache = λ u. none };
}

abbrev asking : Preferences.Answers
asking = record {
  now = 100;
  cache_get = true;
  cache_set = true;
  cache_delete = true;
  query = none;
  upsert = λ c. none;
  new_id = λ c. 9;
  written = λ b. b;
}

abbrev answers : Answers
answers = record {
  now = 100;
  preferences = some asking;
  find_template = none;
  new_id = 77;
  new_event_id = 78;
  insert_notification = none;
  insert_event = none;
  commit = none;
}

abbrev request : SendRequest String String
request = record { event_type = event_promotion; user_id = "u"; payload = "a@b.c"; metadata = none }

abbrev template : NotificationTemplate
template = record {
  event_type = event_promotion;
  channel = "email";
  subject = "Spring";
  content = "Come";
}

create_from_template-IsOutcome_example :
    IsOutcome library answers request
      (record template { event_type = "order_created" })
      world
      (create_from_template library answers request
        (record template { event_type = "order_created" })
        world)
create_from_template-IsOutcome_example =
    create_from_template-IsOutcome library answers request
      (record template { event_type = "order_created" }) world
