-- ===== src/Notification/Webhook/Examples.antt =====
-- Webhooks at concrete inputs.
use Prim.Native.Char.{code}
use Prim.Native.String.{[], ◌∷◌, ◌++◌ as concat}
use Prim.Native.String.append
use microservices_base_platf.Prelude.{
  ℕ, ◌≡◌, refl, sym, ap, ◌∙◌, arith, Bool-cases, inl, inr, str_eq_iff, String, Option, none, some,
  List, [], ◌∷◌, All, str_eq, if◌then◌else◌,
}
use microservices_base_platf.Platform.Broker.Consumer.{
  requeue, Incoming, context_done, delivery, handle_messages,
}
use microservices_base_platf.Notification.Domain.{
  CampaignTask, Uuid, Notification, NotificationStatus,
}
use microservices_base_platf.Notification.Webhook.{HeaderMap, MailpitWebhook, Answers, worker}
use microservices_base_platf.Notification.Breaker.{closed, execute}
use microservices_base_platf.Notification.Email as Email
use microservices_base_platf.Notification.Email.{Mail, send_email}
use microservices_base_platf.Notification.Email.CampaignMail.{handle_campaign_message}
use microservices_base_platf.Notification.Email.CampaignMail.Mails.{handle_campaign_message-mails}
use microservices_base_platf.Notification.Webhook.Requeued.{TellsOnly, handle_messages-requeue}
use microservices_base_platf.Notification.Webhook.Settled.{IsSettled, handle_messages-IsSettled}

abbrev notification : Notification
notification = record {
  id = 7;
  event_type = "order_created";
  user_id = "u";
  channel = "email";
  recipient = "a@b.c";
  subject = "Order";
  content = "Hi";
  status = NotificationStatus.delivering;
  retry_count = 1;
  error_message = some "later";
  metadata = "";
  sent_at = none;
  created_at = 5;
  updated_at = 6;
}

abbrev parse_uuid : String → Option Uuid
parse_uuid s = if str_eq s "seven" then some 7 else none

abbrev report : String → MailpitWebhook
report id = record {
  id = id;
  message_id = "m";
  from = record { name = "n"; address = "x@y.z" };
  subject = "Order";
  to = [];
}

abbrev decode : String → Option MailpitWebhook
decode body = if str_eq body "?" then none else some (report body)

-- Mailpit knows one message.
abbrev answers : Answers
answers = record {
  now = 9;
  get = λ url.
      if str_eq url "http://mailpit/api/v1/message/m1/headers"
      then some
          (record { status_code = 200; headers = some (("X-Notification-Id", "seven" ∷ []) ∷ []) })
      else none;
  update = none;
}

abbrev messages : List (Incoming (Answers × String))
messages =
    delivery (answers, "?")
    ∷ delivery (answers, "m1")
    ∷ delivery (answers, "m2")
    ∷ context_done
    ∷ []

handle_messages-IsSettled_example :
    All
      (IsSettled parse_uuid decode "http://mailpit"
        (handle_messages
          (worker parse_uuid decode "http://mailpit")
          messages
          (notification ∷ [])).1)
      (handle_messages (worker parse_uuid decode "http://mailpit") messages (notification ∷ [])).0
handle_messages-IsSettled_example =
    handle_messages-IsSettled parse_uuid decode "http://mailpit" messages (notification ∷ [])

abbrev task : CampaignTask
task = record {
  campaign_id = "c";
  user_id = "u";
  event_type = "promotion_campaign";
  recipient = "a@b.c";
  channel = "email";
  subject = "Spring";
  content = "Come";
}

abbrev campaign_headers : HeaderMap
campaign_headers = ("X-Notification-Id", "campaign:c:u" ∷ []) ∷ []

abbrev campaign_answers : Answers
campaign_answers = record {
  now = 9;
  get = λ url. some (record { status_code = 200; headers = some campaign_headers });
  update = none;
}

-- Mailpit does not answer.
abbrev silent : Answers
silent = record campaign_answers { get = λ url. none }

abbrev spring_mail : Mail
spring_mail = record {
  recipient = "a@b.c";
  subject = "Spring";
  notification_id = "campaign:c:u";
  body = "Come";
}

abbrev email_answers : Email.Answers
email_answers = record {
  now = 100;
  later = 101;
  smtp = none;
  publish = none;
  update = none;
  create = none;
  create_recipient = none;
  increment = none;
  new_id = 50;
}

abbrev no_mails : Email.World
no_mails = record {
  breaker = record {
    state = closed;
    failure_count = 0;
    open_duration = 30;
    last_failure_time = 0;
    max_failures = 5;
  };
  mails = [];
  published = [];
  notifications = [];
  campaigns = [];
  recipients = [];
}

sent :
    (handle_campaign_message parse_uuid email_answers (some task) no_mails).0.mails
    ≡ spring_mail ∷ []
unfolding send_email execute
sent = handle_campaign_message-mails parse_uuid email_answers task no_mails

abbrev first_code : String → ℕ
first_code [] = 0
first_code (c ∷ s) = code c

unparsed : (x : String) → parse_uuid (concat "campaign:" x) ≡ none
unparsed x = elim (Bool-cases (str_eq (concat "campaign:" x) "seven")) [
  | inl e ↦ absurd (
      omega (
        arith,
        ap first_code
            (sym (append.cons "c" "ampaign:" x) ∙ (str_eq_iff (concat "campaign:" x) "seven").0 e),
      ))
  | inr e ↦ rw e refl
]

tells_c : TellsOnly parse_uuid decode "http://mailpit" (report "m3") "campaign:c:u" campaign_answers
tells_c v (s, h, e, vs, q) = cc

handle_messages-requeue_example :
    handle_messages
      (worker parse_uuid decode "http://mailpit")
      (delivery (campaign_answers, "m3") ∷ delivery (silent, "m3") ∷ [])
      (notification ∷ [])
    ≡ (((campaign_answers, "m3"), requeue) ∷ ((silent, "m3"), requeue) ∷ [], notification ∷ [])
handle_messages-requeue_example =
    handle_messages-requeue parse_uuid decode "http://mailpit" email_answers task no_mails
      spring_mail "m3" (report "m3") (campaign_answers ∷ silent ∷ []) (notification ∷ []) unparsed
      sent refl (tells_c, ((λ v t. absurd t), tt))
