-- ===== src/Notification/Scheduler.antt =====
-- services/notification/internal/service/scheduler_service.go and
-- repository/schedule_repository.go: the daily notifications that users ask for. What package
-- `time` knows of time zones, and what GORM does to find or create a row, are parameters.
pub mod SendTime
pub mod Templates
pub mod Rounds
pub mod Daily
pub mod Requests
mod Examples
use microservices_base_platf.Prelude.{
  ℕ, zero, suc, ◌+◌, ◌*◌, String, Bool, true, false, not, ◌&&◌, ◌||◌, Option, none, some, ◌⊎◌, inl,
  inr, List, [], ◌∷◌, ◌++◌, map, select, first, update_where, ltb, leb, ◌==◌, str_eq, is_none,
  if◌then◌else◌, ℤ, pos, negsuc,
}
use microservices_base_platf.Platform.Text.{Bytes, split_once, atoi}
use microservices_base_platf.Notification.Domain.{
  Uuid, Time, EventType, NotificationTemplate, UserNotificationSchedule,
}
use microservices_base_platf.Notification.Creation
use microservices_base_platf.Notification.Creation.{
  Library, SendRequest, Response, get_by_event_type, create_from_template,
}

-- Time zones by their names: whether one is known, the local day of a time, and the time of a day's
-- hour and minute, which need not be in their usual ranges.
pub record Clock : Type 0 where
  pub knows : String → Bool
  pub day_of : String → Time → ℕ
  pub moment : String → ℕ → ℤ → ℤ → Time

abbrev pub both_numbers : Option ℤ → Option ℤ → Option (ℤ × ℤ)
both_numbers none m = none
both_numbers (some h) none = none
both_numbers (some h) (some m) = some (h, m)

abbrev pub split_time : Option (Bytes × Bytes) → Option (ℤ × ℤ)
split_time none = none
split_time (some (h, m)) = both_numbers (atoi h) (atoi m)

-- The hour and the minute that a text "HH:MM" gives.
unfoldable pub hour_and_minute : Bytes → Option (ℤ × ℤ)
hour_and_minute t = split_time (split_once b':' t)

abbrev pub is_within : ℕ → ℤ → Bool
is_within max (pos n) = leb n max
is_within max (negsuc n) = false

abbrev pub in_range : Option (ℤ × ℤ) → Bool
in_range none = false
in_range (some (h, m)) = is_within 23 h && is_within 59 m

-- `validateSendTime`.
unfoldable pub validate_send_time : Bytes → Bool
unfolding hour_and_minute
validate_send_time t = in_range (hour_and_minute t)

module _ (clock : Clock) where
  abbrev pub zone_of : UserNotificationSchedule → String
  zone_of s = if clock.knows s.timezone then s.timezone else "UTC"

  -- Sent on the local day of `now`.
  abbrev pub sent_on : String → Time → Option Time → Bool
  sent_on zone now none = false
  sent_on zone now (some t) = clock.day_of zone t == clock.day_of zone now

  abbrev pub is_due_at : Option (ℤ × ℤ) → UserNotificationSchedule → Time → Bool
  is_due_at none s now = false
  is_due_at (some (h, m)) s now =
      if ltb now (clock.moment (zone_of s) (clock.day_of (zone_of s) now) h m)
      then false
      else not (sent_on (zone_of s) now s.last_sent_at)

  -- `isDue`.
  unfoldable pub is_due : UserNotificationSchedule → Time → Bool
  unfolding hour_and_minute
  is_due s now = is_due_at (hour_and_minute s.send_time) s now

-- `last_sent_at IS NULL OR last_sent_at < now - 20h`.
abbrev pub is_rested : Time → Option Time → Bool
is_rested now none = true
is_rested now (some t) = ltb (t + 20 * 3600) now

abbrev pub is_candidate : Time → UserNotificationSchedule → Bool
is_candidate now s = s.enabled && is_rested now s.last_sent_at

-- `FindDueCandidates`.
abbrev pub find_due_candidates :
    Time → List UserNotificationSchedule → List UserNotificationSchedule
find_due_candidates now = select (is_candidate now)

abbrev pub mark_sent : Time → UserNotificationSchedule → UserNotificationSchedule
mark_sent now s = record s { last_sent_at = some now; updated_at = now }

-- `UpdateLastSentAt`.
unfoldable pub update_last_sent_at :
    Uuid → Time → List UserNotificationSchedule → List UserNotificationSchedule
update_last_sent_at id now = update_where (λ s. s.id == id) (mark_sent now)

pub record World : Type 0 where
  pub schedules : List UserNotificationSchedule
  pub templates : List NotificationTemplate
  pub creation : Creation.World

-- The answers to one round: to the two kinds of query, and for each schedule to the creation of its
-- notification and to the statement that marks it.
pub record Answers : Type 0 where
  pub now : Time
  pub find_candidates : Option String
  pub find_template : EventType → Option String
  pub create : Uuid → Creation.Answers
  pub mark : Uuid → Option String

-- The templates that were looked up in this round; `none` for one that is missing.
abbrev pub TemplateCache : Type 0
TemplateCache = List (EventType × Option NotificationTemplate)

abbrev pub cached : EventType → TemplateCache → Option (EventType × Option NotificationTemplate)
cached event = first (λ e. str_eq e.0 event)

abbrev pub find_template :
    Answers → List NotificationTemplate → EventType → Option NotificationTemplate
find_template a templates event = get_by_event_type (a.find_template event) event templates

abbrev pub add_template :
    Answers
    → List NotificationTemplate
    → EventType
    → Option (EventType × Option NotificationTemplate)
    → TemplateCache
    → TemplateCache
add_template a templates event none cache = (event, find_template a templates event) ∷ cache
add_template a templates event (some e) cache = cache

-- The first loop: one query for each event type.
pub fill_cache :
    Answers
    → List NotificationTemplate
    → List UserNotificationSchedule
    → TemplateCache
    → TemplateCache
fill_cache a templates [] cache = cache
fill_cache a templates (s ∷ ss) cache =
    fill_cache a templates ss
      (add_template a templates s.event_type (cached s.event_type cache) cache)

abbrev pub template_in :
    Option (EventType × Option NotificationTemplate) → Option NotificationTemplate
template_in none = none
template_in (some (event, t)) = t

module _ {Payload Metadata : Type 0} (lib : Library Payload Metadata) (clock : Clock)
    (decode : String → Option Payload) (empty : Payload) (a : Answers) where
  abbrev pub decoded : Option Payload → Payload
  decoded none = empty
  decoded (some p) = p

  abbrev pub payload_of : String → Payload
  payload_of s = if str_eq s "" then empty else decoded (decode s)

  abbrev pub request_of : UserNotificationSchedule → SendRequest Payload Metadata
  request_of s = record {
    event_type = s.event_type;
    user_id = s.user_id;
    payload = payload_of s.payload;
    metadata = none;
  }

  abbrev pub marked : Option String → UserNotificationSchedule → World → World
  marked none s w = record w { schedules = update_last_sent_at s.id a.now w.schedules }
  marked (some e) s w = w

  -- Without an error the schedule is marked, also when the user has opted out.
  abbrev pub after_creation : UserNotificationSchedule → Response → World → World
  after_creation s (inl e, c) w = record w { creation = c }
  after_creation s (inr r, c) w = marked (a.mark s.id) s (record w { creation = c })

  abbrev pub dispatch : UserNotificationSchedule → Option NotificationTemplate → World → World
  dispatch s none w = w
  dispatch s (some t) w =
      after_creation s (create_from_template lib (a.create s.id) (request_of s) t w.creation) w

  abbrev pub process_schedule :
      UserNotificationSchedule → Option NotificationTemplate → World → World
  process_schedule s t w = if is_due clock s a.now then dispatch s t w else w

  -- The second loop, with the templates from a lookup.
  pub process_all :
      (EventType → Option NotificationTemplate) → List UserNotificationSchedule → World → World
  unfolding is_due update_last_sent_at
  process_all template_of [] w = w
  process_all template_of (s ∷ ss) w =
      process_all template_of ss (process_schedule s (template_of s.event_type) w)

  abbrev pub template_cache : World → TemplateCache
  template_cache w = fill_cache a w.templates (find_due_candidates a.now w.schedules) []

  abbrev pub process_found : Option String → World → Option String × World
  process_found none w = (
    none,
    process_all (λ event. template_in (cached event (template_cache w)))
        (find_due_candidates a.now w.schedules) w,
  )
  process_found (some e) w = (some e, w)

  -- `ProcessDueSchedules`, with the error of its first query.
  unfoldable pub process_due_schedules : World → Option String × World
  unfolding process_all fill_cache
  process_due_schedules w = process_found a.find_candidates w
