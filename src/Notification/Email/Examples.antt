-- ===== src/Notification/Email/Examples.antt =====
-- The email worker at concrete inputs.
use microservices_base_platf.Prelude.{
  ℕ, ◌+◌, ◌≡◌, refl, ◌≢◌, ◌≤◌, ◌⊎◌, String, Option, none, some, [], ◌∷◌, if◌then◌else◌, str_eq,
}
use microservices_base_platf.Notification.Domain.{
  Uuid, NotificationTask, CampaignTask, Campaign, CampaignStatus,
}
use microservices_base_platf.Notification.Repository.{increment_campaign_counter, CounterField}
use microservices_base_platf.Notification.Breaker.{
  CircuitBreaker, closed, opened, half_open, execute,
}
use microservices_base_platf.Notification.Email.{
  Answers, Config, World, HandlerError, send_failed, SendError, breaker_open, send_email, mail_of,
  retry_publication, handle_message,
}
use microservices_base_platf.Notification.Email.Laws.{IsSent, IsCooled, handle_message_acked}
use microservices_base_platf.Notification.Email.CampaignMail.{
  handle_campaign_message, campaign_worker,
}
use microservices_base_platf.Platform.Broker.Consumer.{requeue, delivery, handle_messages}
use microservices_base_platf.Notification.Email.CampaignMail.Counters.{
  add_failures, handle_campaign_message-counts, redeliver-overcounts,
}

-- An id parser that knows two ids.
abbrev parse_uuid : String → Option Uuid
parse_uuid s = if str_eq s "n-7" then some 7 else if str_eq s "c-9" then some 9 else none

abbrev config : Config
config = record { exchange = "notification"; max_retries = 3 }

abbrev breaker_in : ℕ → CircuitBreaker
breaker_in last = record {
  state = opened;
  failure_count = 5;
  open_duration = 30;
  last_failure_time = last;
  max_failures = 5;
}

abbrev closed_breaker : CircuitBreaker
closed_breaker = record (breaker_in 0) { state = closed; failure_count = 0 }

abbrev spring : Campaign
spring = record {
  id = 9;
  title = "spring";
  subject = "Spring";
  content = "Sale";
  channel = "email";
  event_type = "promotion_campaign";
  target_audience = "all";
  filter_criteria = "";
  status = CampaignStatus.dispatching;
  scheduled_at = 0;
  deleted_at = none;
  total_recipients = 1;
  last_dispatched_cursor = none;
  dispatched_count = 1;
  sent_count = 0;
  failed_count = 0;
}

abbrev world : CircuitBreaker → World
world cb = record {
  breaker = cb;
  mails = [];
  published = [];
  notifications = [];
  campaigns = spring ∷ [];
  recipients = [];
}

abbrev fine : Answers
fine = record {
  now = 100;
  later = 101;
  smtp = none;
  publish = none;
  update = none;
  create = none;
  create_recipient = none;
  increment = none;
  new_id = 50;
}

abbrev uncounted : Answers
uncounted = record fine { increment = some "timeout" }

abbrev smtp_down : Answers
smtp_down = record fine { smtp = some "timeout" }

abbrev task : ℕ → NotificationTask
task count = record {
  notification_id = "n-7";
  user_id = "u";
  event_type = "order_created";
  recipient = "a@b.c";
  channel = "email";
  subject = "Order";
  content = "Thanks";
  retry_count = count;
}

abbrev campaign_task : String → CampaignTask
campaign_task recipient = record {
  campaign_id = "c-9";
  user_id = "u";
  event_type = "promotion_campaign";
  recipient = recipient;
  channel = "email";
  subject = "Spring";
  content = "Sale";
}

-- A failed send of a message that was tried twice is acknowledged, with a retry published.
abbrev after_retry : World × Option HandlerError
after_retry = handle_message parse_uuid config smtp_down (some (task 2)) (world closed_breaker)

handle_message_acked_example :
    (IsSent smtp_down (mail_of parse_uuid (task 2)) (world closed_breaker) after_retry.0
      × (after_retry.0.published ≡ []))
    ⊎ ((after_retry.0.published ≡ retry_publication config (task 2) ∷ [])
        × (2 + 1 ≤ 3)
        × (after_retry.0.mails ≡ []))
    ⊎ (IsCooled smtp_down (world closed_breaker)
        × (after_retry.0.mails ≡ [])
        × (after_retry.0.published ≡ [])
        × (after_retry.0.breaker.state ≡ half_open))
unfolding handle_message send_email execute
handle_message_acked_example =
    handle_message_acked parse_uuid config smtp_down (world closed_breaker) (task 2) refl

abbrev after_campaign : World × Option HandlerError
after_campaign =
    handle_campaign_message parse_uuid fine (some (campaign_task "a@b.c")) (world closed_breaker)

handle_campaign_message-counts_example :
    ((after_campaign.1 ≡ none)
      × (after_campaign.0.campaigns
          ≡ increment_campaign_counter 9 CounterField.sent_count (spring ∷ [])))
    ⊎ ((after_campaign.1 ≡ some (send_failed breaker_open))
        × (after_campaign.0.campaigns ≡ spring ∷ []))
    ⊎ ((f : SendError) × (f ≢ breaker_open)
        × (after_campaign.1 ≡ some (send_failed f))
        × (after_campaign.0.campaigns
            ≡ increment_campaign_counter 9 CounterField.failed_count (spring ∷ [])))
handle_campaign_message-counts_example =
    handle_campaign_message-counts parse_uuid fine (campaign_task "a@b.c") (world closed_breaker)
      refl

-- Of three deliveries of one message, two count a failure.
redeliver-overcounts_example :
    let r =
      handle_messages
        (campaign_worker parse_uuid)
        (delivery (fine, some (campaign_task ""))
          ∷ delivery (uncounted, some (campaign_task ""))
          ∷ delivery (fine, some (campaign_task ""))
          ∷ [])
        (world closed_breaker) in
    (r.0
      ≡ ((fine, some (campaign_task "")), requeue)
        ∷ ((uncounted, some (campaign_task "")), requeue)
        ∷ ((fine, some (campaign_task "")), requeue)
        ∷ [])
    × (r.1.campaigns ≡ add_failures 2 spring ∷ [])
redeliver-overcounts_example =
    redeliver-overcounts parse_uuid (campaign_task "") (world closed_breaker)
      (fine ∷ uncounted ∷ fine ∷ []) refl
