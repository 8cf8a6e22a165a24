-- ===== src/Notification/Scheduler/Requests.antt =====
-- services/notification/internal/service/scheduler_service.go: a user's requests. `FirstOrCreate` of
-- GORM, with its `Where` and `Assign`, is a parameter; so is the clock's table of time zones.
use microservices_base_platf.Prelude.{
  String, Bool, ◌&&◌, Option, none, some, ◌⊎◌, inl, inr, List, map, select, update_where, ◌==◌,
  str_eq, not, if◌then◌else◌,
}
use microservices_base_platf.Platform.Text.{Bytes}
use microservices_base_platf.Notification.Domain.{Uuid, Time, EventType, UserNotificationSchedule}
use microservices_base_platf.Notification.Scheduler.{Clock, validate_send_time}

-- `dto.UpsertScheduleRequest`.
pub record UpsertScheduleRequest (Payload : Type 0) : Type 0 where
  pub user_id : String
  pub event_type : EventType
  pub send_time : Bytes
  pub timezone : String
  pub enabled : Bool
  pub payload : Option Payload

pub record ScheduleItem : Type 0 where
  pub id : Uuid
  pub event_type : EventType
  pub send_time : Bytes
  pub timezone : String
  pub enabled : Bool
  pub last_sent_at : Option Time
  pub created_at : Time

pub data ScheduleError : Type 0 where
  bad_send_time invalid_timezone marshal_failed : ScheduleError
  save_failed : String → ScheduleError

-- The answers to the two statements of `Upsert`.
pub record SaveAnswers : Type 0 where
  pub now : Time
  pub first_or_create : Option String
  pub update : Option String

abbrev pub Rows : Type 0
Rows = List UserNotificationSchedule

-- `toScheduleItem`.
abbrev pub to_schedule_item : UserNotificationSchedule → ScheduleItem
to_schedule_item s = record {
  id = s.id;
  event_type = s.event_type;
  send_time = s.send_time;
  timezone = s.timezone;
  enabled = s.enabled;
  last_sent_at = s.last_sent_at;
  created_at = s.created_at;
}

abbrev pub copy_fields :
    Time → UserNotificationSchedule → UserNotificationSchedule → UserNotificationSchedule
copy_fields now s r = record r {
  send_time = s.send_time;
  timezone = s.timezone;
  enabled = s.enabled;
  payload = s.payload;
  updated_at = now;
}

abbrev pub SaveResponse : Type 0
SaveResponse = (ScheduleError ⊎ ScheduleItem) × Rows

module _ {Payload : Type 0} (clock : Clock) (marshal : Payload → Option String)
    (first_or_create : UserNotificationSchedule → Rows → UserNotificationSchedule × Rows) where
  -- The second statement of `Upsert`, on the row that the first one found or made.
  abbrev pub update_found :
      SaveAnswers → Option String → UserNotificationSchedule × Rows → SaveResponse
  update_found a (some e) (s, rows) = (inl (save_failed e), rows)
  update_found a none (s, rows) =
      (inr (to_schedule_item s), update_where (λ r. r.id == s.id) (copy_fields a.now s) rows)

  -- `Upsert`.
  abbrev pub save : SaveAnswers → Option String → UserNotificationSchedule → Rows → SaveResponse
  save a (some e) s rows = (inl (save_failed e), rows)
  save a none s rows = update_found a a.update (first_or_create s rows)

  abbrev pub payload_text : Option Payload → Option String
  payload_text none = some ""
  payload_text (some p) = marshal p

  -- The row without an id and without a time of sending.
  abbrev pub schedule_of :
      SaveAnswers → UpsertScheduleRequest Payload → String → UserNotificationSchedule
  schedule_of a r payload = record {
    id = 0;
    user_id = r.user_id;
    event_type = r.event_type;
    send_time = r.send_time;
    timezone = r.timezone;
    enabled = r.enabled;
    payload = payload;
    last_sent_at = none;
    created_at = a.now;
    updated_at = a.now;
  }

  abbrev pub save_payload :
      SaveAnswers → UpsertScheduleRequest Payload → Option String → Rows → SaveResponse
  save_payload a r none rows = (inl marshal_failed, rows)
  save_payload a r (some payload) rows = save a a.first_or_create (schedule_of a r payload) rows

  -- `UpsertSchedule`.
  unfoldable pub upsert_schedule : SaveAnswers → UpsertScheduleRequest Payload → Rows → SaveResponse
  upsert_schedule a r rows =
      if not (validate_send_time r.send_time)
      then (inl bad_send_time, rows)
      else if clock.knows r.timezone
      then save_payload a r (payload_text r.payload) rows
      else (inl invalid_timezone, rows)

-- `GetSchedules`.
abbrev pub get_schedules : String → Rows → List ScheduleItem
get_schedules user rows = map to_schedule_item (select (λ s. str_eq s.user_id user) rows)

-- `DeleteSchedule`, without a column for deletions that GORM knows.
abbrev pub delete_schedule : String → EventType → Rows → Rows
delete_schedule user event = select (λ s. not (str_eq s.user_id user && str_eq s.event_type event))
