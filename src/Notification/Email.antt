-- ===== src/Notification/Email.antt =====
-- services/notification/internal/worker/email_worker.go. What the worker cannot decide itself is
-- an argument: what JSON decoding, SMTP, the broker and the database answer, and the clock.
pub mod Laws
pub mod CampaignMail
mod Examples
use Prim.Native.String.{◌++◌ as concat}
use microservices_base_platf.Prelude.{
  ℕ, suc, ◌+◌, String, Bool, true, false, Option, none, some, List, [], ◌∷◌, ◌++◌, ltb,
  if◌then◌else◌, str_eq, update_where, ◌==◌,
}
use microservices_base_platf.Notification.Domain.{
  Uuid, Time, nil_uuid, channel_email, Notification, NotificationStatus, NotificationTask,
  CampaignTask, Campaign, CampaignRecipient, CampaignRecipientStatus,
}
use microservices_base_platf.Notification.Breaker.{
  CircuitBreaker, ExecuteError, circuit_breaker_open, operation_failed, execute,
}
use microservices_base_platf.Notification.Repository.{
  update_delivery_status, create_notification, create_recipient, increment_campaign_counter,
  CounterField,
}

-- A message that an SMTP server took.
pub record Mail : Type 0 where
  pub recipient : String
  pub subject : String
  pub notification_id : String
  pub body : String

-- A `NotificationTask` on its way to an exchange.
pub record Publication : Type 0 where
  pub exchange : String
  pub routing_key : String
  pub task : NotificationTask

pub record Config : Type 0 where
  pub exchange : String
  pub max_retries : ℕ

-- The answers that one delivery meets. `none` stands for success.
pub record Answers : Type 0 where
  pub now : Time
  pub later : Time
  pub smtp : Option String
  pub publish : Option String
  pub update : Option String
  pub create : Option String
  pub create_recipient : Option String
  pub increment : Option String
  pub new_id : Uuid

pub record World : Type 0 where
  pub breaker : CircuitBreaker
  pub mails : List Mail
  pub published : List Publication
  pub notifications : List Notification
  pub campaigns : List Campaign
  pub recipients : List CampaignRecipient

pub data SendError : Type 0 where
  empty_recipient breaker_open : SendError
  smtp_failed : String → SendError

abbrev pub error_text : SendError → String
error_text empty_recipient = "recipient email address is empty"
error_text breaker_open = "circuit breaker is open"
error_text (smtp_failed e) = e

-- What a handler returns: `none` acknowledges the message.
pub data HandlerError : Type 0 where
  reject_to_dlq malformed : HandlerError
  send_failed : SendError → HandlerError

abbrev pub attempt : Option String → Mail → List Mail → Option String × List Mail
attempt none m mails = (none, mails ++ m ∷ [])
attempt (some e) m mails = (some e, mails)

abbrev pub send_error : Option (ExecuteError String) → Option SendError
send_error none = none
send_error (some circuit_breaker_open) = some breaker_open
send_error (some (operation_failed e)) = some (smtp_failed e)

-- Without a recipient the breaker is not asked.
unfoldable pub send_email : Answers → Mail → World → World × Option SendError
send_email a m w =
    if str_eq m.recipient ""
    then (w, some empty_recipient)
    else let (cb, e, mails) = execute w.breaker a.now a.later (attempt a.smtp m) w.mails in
      (record w { breaker = cb; mails = mails }, send_error e)

abbrev pub on_success {ℓ} : {A : Type ℓ} → Option String → A → A → A
on_success none done undone = done
on_success (some e) done undone = undone

-- The delays of `retryDelay` in minutes; the list's index is the retry count.
unfoldable pub retry_delay : ℕ → ℕ
retry_delay retry_count =
    if ltb retry_count 3
    then (if retry_count == 0 then 1 else if retry_count == 1 then 5 else 15)
    else 15

-- The retry message: the task with its count one higher, for the retry exchange.
abbrev pub retry_publication : Config → NotificationTask → Publication
retry_publication cfg task = record {
  exchange = concat cfg.exchange ".retry";
  routing_key = concat channel_email ".retry";
  task = record task { retry_count = task.retry_count + 1 };
}

module _ (parse_uuid : String → Option Uuid) where
  -- `id, _ := uuid.Parse(s)`.
  abbrev pub parsed : String → Uuid
  parsed s = elim (parse_uuid s) [ none ↦ nil_uuid | some id ↦ id ]

  pub update_status : Answers → NotificationTask → NotificationStatus → String → World → World
  update_status a task status message w = record w {
    notifications =
        on_success a.update
          (update_delivery_status a.later (parsed task.notification_id) status message none
            (some task.retry_count) w.notifications)
          w.notifications;
  }

  -- The lines of `HandleMessage` after `sendEmail`, by what that returned.
  pub after_send :
      Config → Answers → NotificationTask → World → Option SendError → World × Option HandlerError
  unfolding update_status
  after_send cfg a task w none = (
    update_status a task NotificationStatus.delivering "Waiting for webhook confirmation" w,
    none,
  )
  after_send cfg a task w (some breaker_open) = (w, some (send_failed breaker_open))
  after_send cfg a task w (some e) =
      if ltb task.retry_count cfg.max_retries
      then on_success a.publish
          (record w { published = w.published ++ retry_publication cfg task ∷ [] }, none)
          (w, some (send_failed e))
      else (update_status a task NotificationStatus.failed (error_text e) w, some reject_to_dlq)

  abbrev pub mail_of : NotificationTask → Mail
  mail_of task = record {
    recipient = task.recipient;
    subject = task.subject;
    notification_id = task.notification_id;
    body = task.content;
  }

  -- `HandleMessage`; no task stands for a body that does not decode.
  unfoldable pub handle_message :
      Config → Answers → Option NotificationTask → World → World × Option HandlerError
  unfolding after_send send_email
  handle_message cfg a none w = (w, some reject_to_dlq)
  handle_message cfg a (some task) w =
      let (w', e) = send_email a (mail_of task) w in after_send cfg a task w' e

  -- A sequence of deliveries, each with its body and the answers that it meets.
  pub deliver_all : Config → World → List (Answers × Option NotificationTask) → World
  deliver_all cfg w [] = w
  deliver_all cfg w ((a, body) ∷ rest) = deliver_all cfg (handle_message cfg a body w).0 rest
