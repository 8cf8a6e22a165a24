-- ===== src/Notification/Preferences.antt =====
-- services/notification/internal/service/preference_service.go and
-- repository/preference_repository.go: which notifications a user has switched off, in a table and
-- in a cache. A unique index on the user, the event type and the channel makes the order in which
-- the database finds rows immaterial.
pub mod Coherent
pub mod Upserts
pub mod Choices
mod Examples
use microservices_base_platf.Prelude.{
  ℕ, String, Bool, true, false, ◌&&◌, Option, none, some, ◌⊎◌, inl, inr, List, [], ◌∷◌, ◌++◌, map,
  select, first, update_where, is_none, is_some, str_eq, if◌then◌else◌,
}
use microservices_base_platf.Notification.Domain.{
  Uuid, Time, EventType, NotificationChannel, NotificationPreference, event_promotion,
}
use microservices_base_platf.Platform.Errors.{Reason, event_type_not_configurable}

pub record PreferenceItem : Type 0 where
  pub id : Uuid
  pub event_type : EventType
  pub channel : NotificationChannel
  pub enabled : Bool
  pub updated_at : Time

-- One item of `UpsertPreferencesRequest`.
pub record PreferenceInput : Type 0 where
  pub event_type : EventType
  pub channel : NotificationChannel
  pub enabled : Bool

-- The table, and what the cache holds for the key of each user.
pub record World : Type 0 where
  pub rows : List NotificationPreference
  pub cache : String → Option (List PreferenceItem)

-- The answers to one request: whether the cache is reached by each of its commands, the error of
-- the query, and for the statement on each channel its error and the id of a new row. `written` is what GORM
-- writes into the column `enabled`, whose tag has a default, for a value of the field.
pub record Answers : Type 0 where
  pub now : Time
  pub cache_get : Bool
  pub cache_set : Bool
  pub cache_delete : Bool
  pub query : Option String
  pub upsert : NotificationChannel → Option String
  pub new_id : NotificationChannel → Uuid
  pub written : Bool → Bool

pub data PreferenceError : Type 0 where
  bad_request : Reason → PreferenceError
  query_failed upsert_failed : String → PreferenceError

abbrev pub Response : Type 0
Response = (PreferenceError ⊎ List PreferenceItem) × World

-- `toPreferenceItems`, for one row.
abbrev pub item_of : NotificationPreference → PreferenceItem
item_of p = record {
  id = p.id;
  event_type = p.event_type;
  channel = p.channel;
  enabled = p.enabled;
  updated_at = p.updated_at;
}

-- `user_id = ? AND deleted_at IS NULL`.
abbrev pub is_of_user : String → NotificationPreference → Bool
is_of_user user p = str_eq p.user_id user && is_none p.deleted_at

abbrev pub get_by_user_id : String → List NotificationPreference → List NotificationPreference
get_by_user_id user = select (is_of_user user)

abbrev pub is_for : EventType → NotificationChannel → PreferenceItem → Bool
is_for event channel i = str_eq i.event_type event && str_eq i.channel channel

abbrev pub enabled_by : Option PreferenceItem → Bool
enabled_by none = true
enabled_by (some i) = i.enabled

abbrev pub is_row_for : String → EventType → NotificationChannel → NotificationPreference → Bool
is_row_for user event channel p = is_of_user user p && is_for event channel (item_of p)

abbrev pub enabled_in : Option NotificationPreference → Bool
enabled_in none = true
enabled_in (some p) = p.enabled

-- `IsEnabled`.
unfoldable pub is_enabled :
    String → EventType → NotificationChannel → List NotificationPreference → Bool
is_enabled user event channel rows = enabled_in (first (is_row_for user event channel) rows)

-- `ON CONFLICT (user_id, event_type, channel)`.
abbrev pub conflicts : NotificationPreference → NotificationPreference → Bool
conflicts new old =
    str_eq old.user_id new.user_id
    && (str_eq old.event_type new.event_type && str_eq old.channel new.channel)

abbrev pub overwrite : NotificationPreference → NotificationPreference → NotificationPreference
overwrite new old = record old { enabled = new.enabled; updated_at = new.updated_at }

-- By the row in conflict; the result has the id of the row.
abbrev pub stored :
    NotificationPreference
    → List NotificationPreference
    → Option NotificationPreference
    → NotificationPreference × List NotificationPreference
stored new rows none = (new, rows ++ new ∷ [])
stored new rows (some old) =
    (record new { id = old.id }, update_where (conflicts new) (overwrite new) rows)

-- `Upsert`.
unfoldable pub upsert :
    NotificationPreference
    → List NotificationPreference
    → NotificationPreference × List NotificationPreference
upsert new rows = stored new rows (first (conflicts new) rows)

abbrev pub put : String → Option (List PreferenceItem) → World → World
put user entry w = record w { cache = λ u. if str_eq u user then entry else w.cache u }

-- What a `Get` of the cache finds.
abbrev pub cached : Answers → String → World → Option (List PreferenceItem)
cached a user w = if a.cache_get then w.cache user else none

abbrev pub fill : Answers → String → World → World
fill a user w =
    if a.cache_set then put user (some (map item_of (get_by_user_id user w.rows))) w else w

abbrev pub get_uncached : Answers → Option String → String → World → Response
get_uncached a (some e) user w = (inl (query_failed e), w)
get_uncached a none user w = (inr (map item_of (get_by_user_id user w.rows)), fill a user w)

abbrev pub get_with : Answers → String → World → Option (List PreferenceItem) → Response
get_with a user w (some items) = (inr items, w)
get_with a user w none = get_uncached a a.query user w

-- `GetPreferences`.
unfoldable pub get_preferences : Answers → String → World → Response
get_preferences a user w = get_with a user w (cached a user w)

abbrev pub query_enabled :
    Option String → String → EventType → NotificationChannel → World → String ⊎ Bool
query_enabled (some e) user event channel w = inl e
query_enabled none user event channel w = inr (is_enabled user event channel w.rows)

abbrev pub enabled_with :
    Answers
    → String
    → EventType
    → NotificationChannel
    → World
    → Option (List PreferenceItem)
    → String ⊎ Bool
enabled_with a user event channel w (some items) =
    inr (enabled_by (first (is_for event channel) items))
enabled_with a user event channel w none = query_enabled a.query user event channel w

-- `IsNotificationEnabled`; an error is one of the query.
unfoldable pub is_notification_enabled :
    Answers → String → EventType → NotificationChannel → World → String ⊎ Bool
unfolding is_enabled
is_notification_enabled a user event channel w =
    if str_eq event event_promotion
    then enabled_with a user event channel w (cached a user w)
    else inr true

abbrev pub preference_of : Answers → String → PreferenceInput → NotificationPreference
preference_of a user i = record {
  id = a.new_id i.channel;
  user_id = user;
  event_type = i.event_type;
  channel = i.channel;
  enabled = a.written i.enabled;
  updated_at = a.now;
  deleted_at = none;
}

-- The first item whose event type may not be switched off.
abbrev pub is_fixed : PreferenceInput → Bool
is_fixed i = if str_eq i.event_type event_promotion then false else true

-- The loop ends with the first error.
abbrev pub after_upsert : Option String → World → Response → Response
after_upsert (some e) w rest = (inl (upsert_failed e), w)
after_upsert none w rest = rest

-- The loop of `UpsertPreferences`, and the cache's entry deleted behind it.
pub upsert_all :
    Answers → String → List PreferenceInput → List NotificationPreference → World → Response
upsert_all a user [] done w =
    (inr (map item_of done), if a.cache_delete then put user none w else w)
upsert_all a user (i ∷ inputs) done w =
    let (row, rows) = upsert (preference_of a user i) w.rows in
    after_upsert (a.upsert i.channel) w
      (upsert_all a user inputs (done ++ row ∷ []) (record w { rows = rows }))

abbrev pub allowed : Option PreferenceInput → World → Response → Response
allowed (some i) w rest = (inl (bad_request event_type_not_configurable), w)
allowed none w rest = rest

-- `UpsertPreferences`: nothing is written if one of the items may not be switched off.
unfoldable pub upsert_preferences : Answers → String → List PreferenceInput → World → Response
unfolding upsert_all
upsert_preferences a user inputs w =
    allowed (first is_fixed inputs) w (upsert_all a user inputs [] w)
