-- ===== src/Notification/Email/CampaignMail.antt =====
-- services/notification/internal/worker/email_worker.go, the messages of the campaign queue:
-- `HandleCampaignMessage` and the audit rows that it writes.
pub mod Counters
pub mod Mails
use Prim.Native.String.{◌++◌ as concat}
use microservices_base_platf.Prelude.{
  ℕ, String, Bool, true, false, Option, none, some, List, [], ◌∷◌,
}
use microservices_base_platf.Platform.Broker.Consumer.{Consumer}
use microservices_base_platf.Notification.Domain.{
  Uuid, Notification, NotificationStatus, CampaignTask, CampaignRecipientStatus,
}
use microservices_base_platf.Notification.Repository.{
  create_notification, create_recipient, increment_campaign_counter, CounterField,
}
use microservices_base_platf.Notification.Email.{
  Answers, World, Mail, SendError, empty_recipient, breaker_open, smtp_failed, error_text,
  HandlerError, reject_to_dlq, malformed, send_failed, send_email, parsed, on_success,
}

abbrev pub sent_at_for : NotificationStatus → ℕ → Option ℕ
sent_at_for NotificationStatus.sent now = some now
sent_at_for NotificationStatus.pending now = none
sent_at_for NotificationStatus.processing now = none
sent_at_for NotificationStatus.delivering now = none
sent_at_for NotificationStatus.failed now = none

unfoldable pub insert_campaign_audit :
    Answers → CampaignTask → NotificationStatus → String → World → World
insert_campaign_audit a task status message w = record w {
  notifications =
      on_success a.create
        (create_notification
          (record {
            id = a.new_id;
            event_type = task.event_type;
            user_id = task.user_id;
            channel = task.channel;
            recipient = task.recipient;
            subject = task.subject;
            content = task.content;
            status = status;
            retry_count = 0;
            error_message = some message;
            metadata = concat "{\"campaign_id\":\"" (concat task.campaign_id "\"}");
            sent_at = sent_at_for status a.later;
            created_at = a.later;
            updated_at = a.later;
          })
          w.notifications)
        w.notifications;
}

unfoldable pub insert_campaign_recipient :
    Answers → Uuid → CampaignTask → CampaignRecipientStatus → World → World
insert_campaign_recipient a campaign_id task status w = record w {
  recipients =
      on_success a.create_recipient
        (create_recipient
          (record {
            campaign_id = campaign_id;
            user_id = task.user_id;
            recipient = task.recipient;
            status = status;
          })
          w.recipients)
        w.recipients;
}

unfoldable pub count_campaign : Answers → Uuid → CounterField → World → World
count_campaign a campaign_id field w = record w {
  campaigns =
      on_success a.increment (increment_campaign_counter campaign_id field w.campaigns) w.campaigns;
}

abbrev pub campaign_mail : CampaignTask → Mail
campaign_mail task = record {
  recipient = task.recipient;
  subject = task.subject;
  notification_id = concat "campaign:" (concat task.campaign_id (concat ":" task.user_id));
  body = task.content;
}

module _ (parse_uuid : String → Option Uuid) where
  -- The audit rows and the counter, for one outcome of the send.
  pub record_outcome :
      Answers
      → CampaignTask
      → NotificationStatus
      → String
      → CampaignRecipientStatus
      → CounterField
      → World
      → World
  unfolding insert_campaign_audit insert_campaign_recipient count_campaign
  record_outcome a task status message recipient_status field w =
      let id = parsed parse_uuid task.campaign_id in
      count_campaign a id field (
        insert_campaign_recipient a id task recipient_status
          (insert_campaign_audit a task status message w))

  abbrev pub record_failure : Answers → CampaignTask → SendError → World → World
  record_failure a task e =
      record_outcome a task NotificationStatus.failed (error_text e) CampaignRecipientStatus.failed
        CounterField.failed_count

  -- The lines of `HandleCampaignMessage` after `sendEmail`.
  pub after_campaign_send :
      Answers → CampaignTask → World → Option SendError → World × Option HandlerError
  after_campaign_send a task w (some breaker_open) = (w, some (send_failed breaker_open))
  after_campaign_send a task w (some empty_recipient) =
      (record_failure a task empty_recipient w, some (send_failed empty_recipient))
  after_campaign_send a task w (some (smtp_failed e)) =
      (record_failure a task (smtp_failed e) w, some (send_failed (smtp_failed e)))
  after_campaign_send a task w none = (
    record_outcome a task NotificationStatus.sent "" CampaignRecipientStatus.sent
        CounterField.sent_count w,
    none,
  )

  unfoldable pub handle_campaign_message :
      Answers → Option CampaignTask → World → World × Option HandlerError
  unfolding after_campaign_send
  handle_campaign_message a none w = (w, some malformed)
  handle_campaign_message a (some task) w =
      let (w', e) = send_email a (campaign_mail task) w in after_campaign_send a task w' e

  -- `errors.Is(err, broker.ErrRejectToDLQ)`.
  abbrev pub is_reject : HandlerError → Bool
  is_reject reject_to_dlq = true
  is_reject malformed = false
  is_reject (send_failed e) = false

  -- The handler as a consumer of its queue; a delivery is a body with the answers that it meets.
  abbrev pub campaign_worker : Consumer (Answers × Option CampaignTask) World HandlerError
  campaign_worker = record {
    handler = λ d w. handle_campaign_message d.0 d.1 w;
    is_reject = is_reject;
  }
