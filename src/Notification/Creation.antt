-- ===== src/Notification/Creation.antt =====
-- services/notification/internal/service/notification_service.go: a request becomes a row of
-- `notifications` and an event of the outbox, in one transaction. The payload and the metadata of a
-- request are of any types; what the standard library does with them is a parameter.
pub mod Accepted
mod Examples
use microservices_base_platf.Prelude.{
  ℕ, String, Bool, true, false, not, Option, none, some, ◌⊎◌, inl, inr, List, [], ◌∷◌, ◌++◌, first,
  str_eq, if◌then◌else◌,
}
use microservices_base_platf.Notification.Domain.{
  Uuid, Time, EventType, NotificationChannel, Notification, NotificationStatus,
  NotificationTemplate, NotificationTask, OutboxEvent, OutboxStatus, channel_email,
}
use microservices_base_platf.Notification.Repository.{create_notification}
use microservices_base_platf.Notification.Outbox.Table.{create_event}
use microservices_base_platf.Notification.Preferences
use microservices_base_platf.Notification.Preferences.{is_notification_enabled}

-- `text/template`, `encoding/json`, `net/mail` and the text of an id; `none` is an error, but for
-- `recipient_of`, where the payload has no text under "recipient".
pub record Library (Payload Metadata : Type 0) : Type 0 where
  pub render : String → Payload → Option String
  pub marshal : Metadata → Option String
  pub recipient_of : Payload → Option String
  pub is_address : String → Bool
  pub text_of : Uuid → String

-- `dto.SendNotificationRequest`.
pub record SendRequest (Payload Metadata : Type 0) : Type 0 where
  pub event_type : EventType
  pub user_id : String
  pub payload : Payload
  pub metadata : Option Metadata

pub record World : Type 0 where
  pub notifications : List Notification
  pub outbox : List OutboxEvent
  pub preferences : Preferences.World

-- The answers to one request, with the ids of the new rows. Without a preference service there is
-- no check.
pub record Answers : Type 0 where
  pub now : Time
  pub preferences : Option Preferences.Answers
  pub find_template : Option String
  pub new_id : Uuid
  pub new_event_id : Uuid
  pub insert_notification : Option String
  pub insert_event : Option String
  pub commit : Option String

pub data CreationError : Type 0 where
  no_template render_title render_content marshal_metadata recipient_required : CreationError
  invalid_recipient transaction_failed : String → CreationError

-- The id of the notification, or a user who opted out.
pub data SendResponse : Type 0 where
  skipped : SendResponse
  accepted : String → SendResponse

abbrev pub Response : Type 0
Response = (CreationError ⊎ SendResponse) × World

-- A check that fails does not hold the notification back.
abbrev pub is_refused : String ⊎ Bool → Bool
is_refused (inl e) = false
is_refused (inr enabled) = not enabled

abbrev pub opted_out :
    Option Preferences.Answers → String → NotificationTemplate → Preferences.World → Bool
opted_out none user t p = false
opted_out (some a) user t p = is_refused (is_notification_enabled a user t.event_type t.channel p)

abbrev pub recipient_or_empty : Option String → String
recipient_or_empty none = ""
recipient_or_empty (some r) = r

abbrev pub get_by_event_type :
    Option String → EventType → List NotificationTemplate → Option NotificationTemplate
get_by_event_type (some e) event templates = none
get_by_event_type none event templates = first (λ t. str_eq t.event_type event) templates

module _ {Payload Metadata : Type 0} (lib : Library Payload Metadata) where
  abbrev pub metadata_text : Option Metadata → Option String
  metadata_text none = some ""
  metadata_text (some m) = lib.marshal m

  -- The subject, the content and the metadata, in the order in which they can fail.
  abbrev pub draft :
      Answers
      → SendRequest Payload Metadata
      → NotificationTemplate
      → Option String
      → Option String
      → Option String
      → CreationError ⊎ Notification
  draft a r t none content metadata = inl render_title
  draft a r t (some subject) none metadata = inl render_content
  draft a r t (some subject) (some content) none = inl marshal_metadata
  draft a r t (some subject) (some content) (some metadata) = inr (record {
    id = a.new_id;
    event_type = t.event_type;
    user_id = r.user_id;
    channel = t.channel;
    recipient = recipient_or_empty (lib.recipient_of r.payload);
    subject = subject;
    content = content;
    status = NotificationStatus.pending;
    retry_count = 0;
    error_message = none;
    metadata = metadata;
    sent_at = none;
    created_at = a.now;
    updated_at = a.now;
  })

  -- An email needs a recipient with a well-formed address.
  abbrev pub check_recipient : CreationError ⊎ Notification → CreationError ⊎ Notification
  check_recipient (inl e) = inl e
  check_recipient (inr n) =
      if str_eq n.channel channel_email
      then if str_eq n.recipient ""
        then inl recipient_required
        else if lib.is_address n.recipient
        then inr n
        else inl (invalid_recipient n.recipient)
      else inr n

  abbrev pub task_of : Notification → NotificationTask
  task_of n = record {
    notification_id = lib.text_of n.id;
    user_id = n.user_id;
    event_type = n.event_type;
    recipient = n.recipient;
    channel = n.channel;
    subject = n.subject;
    content = n.content;
    retry_count = n.retry_count;
  }

  abbrev pub event_of : Answers → Notification → OutboxEvent
  event_of a n = record {
    id = a.new_event_id;
    aggregate_id = n.id;
    aggregate_type = "notification";
    event_type = "notification.created";
    payload = task_of n;
    routing_key = n.channel;
    status = OutboxStatus.pending;
    retry_count = 0;
    last_error = none;
    published_at = none;
    created_at = a.now;
  }

  -- The transaction: any error rolls it back.
  abbrev pub transaction :
      Option String → Option String → Option String → Answers → Notification → World → Response
  transaction (some e) event commit a n w = (inl (transaction_failed e), w)
  transaction none (some e) commit a n w = (inl (transaction_failed e), w)
  transaction none none (some e) a n w = (inl (transaction_failed e), w)
  transaction none none none a n w = (
    inr (accepted (lib.text_of n.id)),
    record w {
      notifications = create_notification n w.notifications;
      outbox = create_event (event_of a n) w.outbox;
    },
  )

  abbrev pub create_with_outbox : Answers → CreationError ⊎ Notification → World → Response
  create_with_outbox a (inl e) w = (inl e, w)
  create_with_outbox a (inr n) w = transaction a.insert_notification a.insert_event a.commit a n w

  abbrev pub build :
      Answers → SendRequest Payload Metadata → NotificationTemplate → CreationError ⊎ Notification
  build a r t = check_recipient (
      draft a r t (lib.render t.subject r.payload) (lib.render t.content r.payload)
        (metadata_text r.metadata))

  -- `createFromTemplate`, which is `CreateNotificationWithTemplate`.
  unfoldable pub create_from_template :
      Answers → SendRequest Payload Metadata → NotificationTemplate → World → Response
  create_from_template a r t w =
      if opted_out a.preferences r.user_id t w.preferences
      then (inr skipped, w)
      else create_with_outbox a (build a r t) w

  abbrev pub create_found :
      Answers → SendRequest Payload Metadata → Option NotificationTemplate → World → Response
  create_found a r none w = (inl no_template, w)
  create_found a r (some t) w = create_from_template a r t w

  -- `CreateNotification`.
  unfoldable pub create :
      Answers → SendRequest Payload Metadata → List NotificationTemplate → World → Response
  unfolding create_from_template
  create a r templates w =
      create_found a r (get_by_event_type a.find_template r.event_type templates) w
