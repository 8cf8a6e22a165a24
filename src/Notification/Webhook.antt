-- ===== src/Notification/Webhook.antt =====
-- services/notification/internal/worker/webhook_worker.go and the webhook of service/
-- notification_service.go: Mailpit reports a delivered mail, whose headers name the notification.
-- Mailpit itself, the decoder of a message's body and the parser of ids are parameters.
pub mod Settled
pub mod Requeued
mod Examples
use Prim.Native.String.{◌++◌ as concat}
use microservices_base_platf.Prelude.{
  ℕ, String, Bool, true, false, Option, none, some, List, [], ◌∷◌, first, str_eq, ◌==◌,
  if◌then◌else◌,
}
use microservices_base_platf.Platform.Broker
use microservices_base_platf.Platform.Broker.{publish}
use microservices_base_platf.Platform.Broker.Consumer.{Consumer}
use microservices_base_platf.Notification.Domain.{Uuid, Time, Notification, NotificationStatus}
use microservices_base_platf.Notification.Repository.{update_delivery_status}

pub record MailAddress : Type 0 where
  pub name : String
  pub address : String

-- `dto.MailpitWebhook`.
pub record MailpitWebhook : Type 0 where
  pub id : String
  pub message_id : String
  pub from : MailAddress
  pub subject : String
  pub to : List MailAddress

abbrev pub HeaderMap : Type 0
HeaderMap = List (String × List String)

-- `headers` is the decoded body, if it can be decoded.
pub record HttpResponse : Type 0 where
  pub status_code : ℕ
  pub headers : Option HeaderMap

-- The answers that one message meets: the clock, Mailpit by URL, and the statement.
pub record Answers : Type 0 where
  pub now : Time
  pub get : String → Option HttpResponse
  pub update : Option String

pub data WebhookError : Type 0 where
  fetch_failed decode_failed header_not_found invalid_id : WebhookError
  bad_status : ℕ → WebhookError
  statement_failed : String → WebhookError
  reject_to_dlq : WebhookError

-- `errors.Is(err, broker.ErrRejectToDLQ)`.
abbrev pub is_reject : WebhookError → Bool
is_reject fetch_failed = false
is_reject decode_failed = false
is_reject header_not_found = false
is_reject invalid_id = false
is_reject (bad_status n) = false
is_reject (statement_failed e) = false
is_reject reject_to_dlq = true

abbrev pub carried_out : {A : Type 0} → Option String → A → A → A × Option WebhookError
carried_out none old new = (new, none)
carried_out (some e) old new = (old, some (statement_failed e))

abbrev pub all_values : Option (String × List String) → List String
all_values none = []
all_values (some (name, vs)) = vs

-- A header's values; none if it is missing.
abbrev pub values : String → HeaderMap → List String
values name h = all_values (first (λ e. str_eq e.0 name) h)

-- An error, or the id that a reply of Mailpit names.
abbrev pub first_value : List String → (Option WebhookError × String)
first_value [] = (some header_not_found, "")
first_value (v ∷ vs) = (none, v)

abbrev pub headers_in : Option HeaderMap → (Option WebhookError × String)
headers_in none = (some decode_failed, "")
headers_in (some h) = first_value (values "X-Notification-Id" h)

abbrev pub if_ok : Bool → HttpResponse → (Option WebhookError × String)
if_ok false r = (some (bad_status r.status_code), "")
if_ok true r = headers_in r.headers

abbrev pub named_in : Option HttpResponse → (Option WebhookError × String)
named_in none = (some fetch_failed, "")
named_in (some r) = if_ok (r.status_code == 200) r

abbrev pub headers_url : String → MailpitWebhook → String
headers_url base webhook = concat (concat (concat base "/api/v1/message/") webhook.id) "/headers"

module _ (parse_uuid : String → Option Uuid) where
  abbrev pub update_parsed :
      Answers
      → Option Uuid
      → NotificationStatus
      → String
      → Option Time
      → List Notification
      → List Notification × Option WebhookError
  update_parsed a none status error_message sent_at rows = (rows, some invalid_id)
  update_parsed a (some id) status error_message sent_at rows =
      carried_out a.update rows
        (update_delivery_status a.now id status error_message sent_at none rows)

  -- `UpdateStatus`.
  unfoldable pub update_status :
      Answers
      → String
      → NotificationStatus
      → String
      → Option Time
      → List Notification
      → List Notification × Option WebhookError
  unfolding update_delivery_status
  update_status a id status error_message sent_at rows =
      update_parsed a (parse_uuid id) status error_message sent_at rows

  abbrev pub update_named :
      Answers
      → Option WebhookError × String
      → List Notification
      → List Notification × Option WebhookError
  unfolding update_status
  update_named a (some e, id) rows = (rows, some e)
  update_named a (none, id) rows = update_status a id NotificationStatus.sent "" (some a.now) rows

  -- `HandleMailpitWebhook`.
  unfoldable pub handle_mailpit_webhook :
      String
      → Answers
      → MailpitWebhook
      → List Notification
      → List Notification × Option WebhookError
  unfolding update_status
  handle_mailpit_webhook base a webhook rows =
      update_named a (named_in (a.get (headers_url base webhook))) rows

  module _ (decode : String → Option MailpitWebhook) (base : String) where
    abbrev pub handle_decoded :
        Answers
        → Option MailpitWebhook
        → List Notification
        → List Notification × Option WebhookError
    unfolding handle_mailpit_webhook
    handle_decoded a none rows = (rows, some reject_to_dlq)
    handle_decoded a (some webhook) rows = handle_mailpit_webhook base a webhook rows

    -- `HandleMessage` of the webhook worker.
    unfoldable pub handle_message :
        Answers → String → List Notification → List Notification × Option WebhookError
    unfolding handle_mailpit_webhook
    handle_message a body rows = handle_decoded a (decode body) rows

    -- The worker as a consumer of its queue; a delivery is a body with the answers that it meets.
    abbrev pub worker : Consumer (Answers × String) (List Notification) WebhookError
    worker = record { handler = λ d rows. handle_message d.0 d.1 rows; is_reject = is_reject }

-- `PublishWebhookResponse`, to the exchange and the queue of the configuration.
unfoldable pub publish_webhook_response :
    Broker.Answers
    → String
    → String
    → MailpitWebhook
    → Broker.World MailpitWebhook
    → Broker.Response MailpitWebhook
unfolding publish
publish_webhook_response a exchange queue webhook w = publish a exchange queue (some webhook) w
