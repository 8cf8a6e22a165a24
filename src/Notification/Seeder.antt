-- ===== src/Notification/Seeder.antt =====
-- services/notification/internal/service/seeder.go, with `Create` of repository/
-- template_repository.go: the templates that the service starts with.
pub mod Repeated
mod Examples
use microservices_base_platf.Prelude.{String, Option, none, some, List, [], ◌∷◌, ◌++◌}
use microservices_base_platf.Notification.Domain.{
  EventType, NotificationTemplate, channel_email, event_promotion,
}
use microservices_base_platf.Notification.Creation.{get_by_event_type}

-- What the two statements answer, by the event type.
pub record Answers : Type 0 where
  pub find : EventType → Option String
  pub create : EventType → Option String

abbrev pub email_template : EventType → String → String → NotificationTemplate
email_template event subject content = record {
  event_type = event;
  channel = channel_email;
  subject = subject;
  content = content;
}

abbrev pub templates : List NotificationTemplate
templates =
    email_template "auth_otp" "Your OTP Verification Code"
      "Hello, your OTP code is: {{.otp}}. This code is valid for 5 minutes."
    ∷ email_template "auth_login_alert" "New Login Security Alert"
        "Your account was just logged in from device {{.device}} at {{.location}}. If this wasn't you, please secure your account immediately."
    ∷ email_template "order_created" "Order Confirmation - #{{.order_id}}"
        "Hi {{.name}}, your order #{{.order_id}} has been successfully placed and is currently being processed."
    ∷ email_template "payment_success" "Payment Successful - Order #{{.order_id}}"
        "Thank you {{.name}}, your payment of {{.amount}} {{.currency}} for order #{{.order_id}} has been processed successfully."
    ∷ email_template event_promotion "Exclusive Offer: {{.campaign_name}}"
        "Hello {{.name}}, you've just received a special discount! Use code {{.discount_code}} to get {{.discount_value}} off your next purchase."
    ∷ []

abbrev pub Seeded : Type 0
Seeded = Option String × List NotificationTemplate

-- `Create` ends the loop if it fails.
abbrev pub created :
    Option String
    → NotificationTemplate
    → List NotificationTemplate
    → (List NotificationTemplate → Seeded)
    → Seeded
created (some e) t rows rest = (some e, rows)
created none t rows rest = rest (rows ++ t ∷ [])

-- A query that fails counts as one that finds nothing.
abbrev pub seed_missing :
    Answers
    → Option NotificationTemplate
    → NotificationTemplate
    → List NotificationTemplate
    → (List NotificationTemplate → Seeded)
    → Seeded
seed_missing a (some existing) t rows rest = rest rows
seed_missing a none t rows rest = created (a.create t.event_type) t rows rest

pub seed_all : Answers → List NotificationTemplate → List NotificationTemplate → Seeded
seed_all a [] rows = (none, rows)
seed_all a (t ∷ ts) rows =
    seed_missing a (get_by_event_type (a.find t.event_type) t.event_type rows) t rows
      (seed_all a ts)

-- `SeedTemplates`.
unfoldable pub seed_templates : Answers → List NotificationTemplate → Seeded
unfolding seed_all
seed_templates a rows = seed_all a templates rows
