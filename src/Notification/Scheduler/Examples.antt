-- ===== src/Notification/Scheduler/Examples.antt =====
-- The scheduler at concrete inputs.
use microservices_base_platf.Prelude.{
  ℕ, ◌+◌, ◌*◌, ◌/◌, ◌≡◌, refl, String, true, none, some, [], ◌∷◌, str_eq, not, ℤ, pos, negsuc,
  arith,
}
use microservices_base_platf.Notification.Domain.{
  NotificationTemplate, UserNotificationSchedule, event_promotion,
}
use microservices_base_platf.Notification.Preferences
use microservices_base_platf.Notification.Creation
use microservices_base_platf.Notification.Creation.{Library}
use microservices_base_platf.Notification.Scheduler.{
  Clock, World, Answers, process_all, process_due_schedules, find_template, find_due_candidates,
  validate_send_time, hour_and_minute,
}
use microservices_base_platf.Notification.Scheduler.Templates.{process_due_schedules-direct}
use microservices_base_platf.Notification.Scheduler.Daily.{
  Rowwise, IsOnce, run_rounds, run_rounds-IsOnce,
}
use microservices_base_platf.Notification.Scheduler.SendTime.{
  print_time, hour_and_minute-print_time,
}

-- One zone, and times of day in their usual range.
abbrev utc : Clock
utc = record {
  knows = λ zone. str_eq zone "UTC";
  day_of = λ zone t. t / 86400;
  moment = λ zone day h m. day * 86400 + seconds 3600 h + seconds 60 m;
}
  where
    seconds : ℕ → ℤ → ℕ
    seconds unit (pos n) = n * unit
    seconds unit (negsuc n) = 0

abbrev library : Library String String
library = record {
  render = λ t p. some t;
  marshal = λ m. some m;
  recipient_of = λ p. some p;
  is_address = λ s. not (str_eq s "?");
  text_of = λ id. "77";
}

abbrev schedule : UserNotificationSchedule
schedule = record {
  id = 1;
  user_id = "u";
  event_type = event_promotion;
  send_time = print_time 8 30;
  timezone = "UTC";
  enabled = true;
  payload = "a@b.c";
  last_sent_at = none;
  created_at = 5;
  updated_at = 5;
}

abbrev template : NotificationTemplate
template = record {
  event_type = event_promotion;
  channel = "email";
  subject = "Spring";
  content = "Come";
}

-- Two schedules of one event type, the second sent an hour ago.
abbrev world : World
world = record {
  schedules = schedule ∷ record schedule { id = 2; last_sent_at = some 36400 } ∷ [];
  templates = template ∷ [];
  creation = record {
    notifications = [];
    outbox = [];
    preferences = record { rows = []; cache = λ u. none };
  };
}

abbrev asking : Preferences.Answers
asking = record {
  now = 40000;
  cache_get = true;
  cache_set = true;
  cache_delete = true;
  query = none;
  upsert = λ c. none;
  new_id = λ c. 9;
  written = λ b. b;
}

abbrev creating : Creation.Answers
creating = record {
  now = 40000;
  preferences = some asking;
  find_template = none;
  new_id = 77;
  new_event_id = 78;
  insert_notification = none;
  insert_event = none;
  commit = none;
}

abbrev answers : Answers
answers = record {
  now = 40000;
  find_candidates = none;
  find_template = λ event. none;
  create = λ id. creating;
  mark = λ id. none;
}

process_due_schedules-direct_example :
    process_due_schedules library utc (λ s. some s) "" answers world ≡ (
      none,
      process_all library utc
          (λ s. some s)
          ""
          answers
          (find_template answers world.templates)
          (find_due_candidates answers.now world.schedules)
          world,
    )
process_due_schedules-direct_example =
    process_due_schedules-direct library utc (λ s. some s) "" answers world refl

-- Two rounds of one day, the second one ten minutes later.
abbrev ten_minutes_later : Answers
ten_minutes_later = record answers { now = 40600 }

run_rounds-IsOnce_example :
    let w' = run_rounds library utc (λ s. some s) "" (answers ∷ []) world in
    Rowwise
      (IsOnce utc (λ zone. 0))
      world.schedules
      w'.schedules
      (run_rounds library utc (λ s. some s) "" (ten_minutes_later ∷ []) w').schedules
run_rounds-IsOnce_example =
    run_rounds-IsOnce library utc (λ s. some s) "" (λ zone. 0) (answers ∷ [])
      (ten_minutes_later ∷ []) world ((λ zone. omega arith), tt) ((λ zone. omega arith), tt)
      (((λ e. ground (arith, e)), tt), (tt, tt))

hour_and_minute-print_time_example :
    (validate_send_time (print_time 8 30) ≡ true)
    × (hour_and_minute (print_time 8 30) ≡ some (pos 8, pos 30))
hour_and_minute-print_time_example = hour_and_minute-print_time 8 30 (omega arith) (omega arith)
