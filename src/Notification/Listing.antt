-- ===== src/Notification/Listing.antt =====
-- services/notification/internal/service/notification_service.go, `ListNotifications`, and
-- repository/notification_repository.go, `List`: a user's notifications, newest first, page by
-- page. What the standard library does with texts is a parameter.
pub mod Whole
mod Examples
use microservices_base_platf.Prelude.{
  ℕ, zero, suc, ◌+◌, ◌≡◌, String, Bool, true, false, ◌&&◌, ◌||◌, Option, none, some, ◌⊎◌, inl, inr,
  List, [], ◌∷◌, ◌++◌, map, take, select, length, ltb, leb, ◌==◌, str_eq, if◌then◌else◌,
  StrictOrder, sort_rows, last_of, arith,
}
use microservices_base_platf.Notification.Domain.{
  Uuid, Time, EventType, NotificationChannel, Notification, NotificationStatus,
}

-- The time and the id of the last item that was seen.
pub record RepoCursor : Type 0 where
  pub created_at : Time
  pub id : Uuid

-- An empty text is a filter that is not set.
pub record NotificationFilter : Type 0 where
  pub user_id : String
  pub status : String
  pub channel : NotificationChannel
  pub event_type : EventType
  pub from : Option Time
  pub to : Option Time
  pub cursor : Option RepoCursor
  pub limit : ℕ

abbrev pub status_text : NotificationStatus → String
status_text NotificationStatus.pending = "pending"
status_text NotificationStatus.processing = "processing"
status_text NotificationStatus.sent = "sent"
status_text NotificationStatus.delivering = "delivering"
status_text NotificationStatus.failed = "failed"

abbrev pub is_any_or : String → String → Bool
is_any_or wanted s = str_eq wanted "" || str_eq s wanted

abbrev pub is_from : Option Time → Time → Bool
is_from none t = true
is_from (some from) t = leb from t

abbrev pub is_to : Option Time → Time → Bool
is_to none t = true
is_to (some to) t = leb t to

abbrev pub matches : NotificationFilter → Notification → Bool
matches f n =
    str_eq n.user_id f.user_id
    && is_any_or f.status (status_text n.status)
    && is_any_or f.channel n.channel
    && is_any_or f.event_type n.event_type
    && is_from f.from n.created_at
    && is_to f.to n.created_at

-- `(created_at, id) < (?, ?)`.
abbrev pub precedes : Time → Uuid → Time → Uuid → Bool
precedes t i u j = ltb t u || t == u && ltb i j

abbrev pub is_behind : Option RepoCursor → Notification → Bool
is_behind none n = true
is_behind (some c) n = precedes n.created_at n.id c.created_at c.id

pub order_irrefl : (n : Notification) → precedes n.created_at n.id n.created_at n.id ≡ false
order_irrefl n = ground arith

pub order_trans :
    (m n o : Notification)
    → precedes n.created_at n.id m.created_at m.id ≡ true
    → precedes o.created_at o.id n.created_at n.id ≡ true
    → precedes o.created_at o.id m.created_at m.id ≡ true
order_trans m n o h k = ground arith

-- `created_at DESC, id DESC`.
abbrev pub newest_first : StrictOrder Notification
newest_first = record {
  lt = λ m n. precedes n.created_at n.id m.created_at m.id;
  irrefl = order_irrefl;
  trans = order_trans;
}

-- What `List` would return without a limit.
abbrev pub behind : NotificationFilter → Option RepoCursor → List Notification → List Notification
behind f cursor rows = sort_rows newest_first (select (λ n. matches f n && is_behind cursor n) rows)

-- `List`.
unfoldable pub list : NotificationFilter → List Notification → List Notification
list f rows = take f.limit (behind f f.cursor rows)

-- `time`, `encoding/json` for the cursor, `encoding/base64` and `uuid`; `none` is an error.
pub record Library : Type 0 where
  pub parse_time : String → Option Time
  pub marshal : Time × String → String
  pub unmarshal : String → Option (Time × String)
  pub to_base64 : String → String
  pub from_base64 : String → Option String
  pub text_of : Uuid → String
  pub parse_uuid : String → Option Uuid

-- `dto.ListNotificationsRequest`; a limit that is not positive is given as 0.
pub record ListRequest : Type 0 where
  pub user_id : String
  pub status : String
  pub channel : NotificationChannel
  pub event_type : EventType
  pub from : String
  pub to : String
  pub cursor : String
  pub limit : ℕ

pub data ListError : Type 0 where
  invalid_from invalid_to invalid_cursor invalid_cursor_id : ListError
  list_failed : String → ListError

pub record NotificationItem : Type 0 where
  pub id : Uuid
  pub event_type : EventType
  pub channel : NotificationChannel
  pub status : NotificationStatus
  pub subject : String
  pub recipient : String
  pub retry_count : ℕ
  pub error_message : Option String
  pub sent_at : Option Time
  pub created_at : Time

pub record ListResponse : Type 0 where
  pub items : List NotificationItem
  pub next_cursor : String
  pub has_more : Bool

abbrev pub item_of : Notification → NotificationItem
item_of n = record {
  id = n.id;
  event_type = n.event_type;
  channel = n.channel;
  status = n.status;
  subject = n.subject;
  recipient = n.recipient;
  retry_count = n.retry_count;
  error_message = n.error_message;
  sent_at = n.sent_at;
  created_at = n.created_at;
}

abbrev pub limit_of : ℕ → ℕ
limit_of limit = if limit == 0 then 20 else if ltb 100 limit then 100 else limit

module _ (lib : Library) where
  abbrev pub encode_cursor : Time → String → String
  encode_cursor created_at id = lib.to_base64 (lib.marshal (created_at, id))

  abbrev pub unmarshal_or : Option String → Option (Time × String)
  unmarshal_or none = none
  unmarshal_or (some s) = lib.unmarshal s

  abbrev pub decode_cursor : String → Option (Time × String)
  decode_cursor s = unmarshal_or (lib.from_base64 s)

  -- A bound that is not set, or one that can be read.
  abbrev pub given : Option Time → Option (Option Time)
  given none = none
  given (some t) = some (some t)

  abbrev pub bound_of : String → Option (Option Time)
  bound_of s = if str_eq s "" then some none else given (lib.parse_time s)

  abbrev pub cursor_with : Time → Option Uuid → ListError ⊎ Option RepoCursor
  cursor_with t none = inl invalid_cursor_id
  cursor_with t (some id) = inr (some (record { created_at = t; id = id }))

  abbrev pub cursor_parts : Option (Time × String) → ListError ⊎ Option RepoCursor
  cursor_parts none = inl invalid_cursor
  cursor_parts (some (t, id)) = cursor_with t (lib.parse_uuid id)

  abbrev pub cursor_of : String → ListError ⊎ Option RepoCursor
  cursor_of s = if str_eq s "" then inr none else cursor_parts (decode_cursor s)

  abbrev pub filter_with :
      ListRequest
      → Option (Option Time)
      → Option (Option Time)
      → ListError ⊎ Option RepoCursor
      → ListError ⊎ NotificationFilter
  filter_with r none to cursor = inl invalid_from
  filter_with r (some from) none cursor = inl invalid_to
  filter_with r (some from) (some to) (inl e) = inl e
  filter_with r (some from) (some to) (inr cursor) = inr (record {
    user_id = r.user_id;
    status = r.status;
    channel = r.channel;
    event_type = r.event_type;
    from = from;
    to = to;
    cursor = cursor;
    limit = limit_of r.limit + 1;
  })

  abbrev pub next_cursor : Bool → List Notification → String
  next_cursor false rows = ""
  next_cursor true [] = ""
  next_cursor true (n ∷ rows) =
      encode_cursor (last_of n rows).created_at (lib.text_of (last_of n rows).id)

  -- One row more than the limit tells that there are more.
  abbrev pub page_of : ℕ → List Notification → ListResponse
  page_of limit rows =
      let has_more = ltb limit (length rows) in
      let page = if has_more then take limit rows else rows in
      record {
        items = map item_of page;
        next_cursor = next_cursor has_more page;
        has_more = has_more;
      }

  abbrev pub respond :
      Option String
      → ListRequest
      → List Notification
      → ListError ⊎ NotificationFilter
      → ListError ⊎ ListResponse
  respond query r rows (inl e) = inl e
  respond (some e) r rows (inr f) = inl (list_failed e)
  respond none r rows (inr f) = inr (page_of (limit_of r.limit) (list f rows))

  -- `ListNotifications`, where `query` is the error of the query.
  unfoldable pub list_notifications :
      Option String → ListRequest → List Notification → ListError ⊎ ListResponse
  list_notifications query r rows =
      respond query r rows (filter_with r (bound_of r.from) (bound_of r.to) (cursor_of r.cursor))
