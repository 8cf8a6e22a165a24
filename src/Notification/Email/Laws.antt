-- ===== src/Notification/Email/Laws.antt =====
-- What happens to a message that the email worker takes from its queue.
use microservices_base_platf.Prelude.{
  ◌+◌, ◌-◌, ◌≤◌, ◌<◌, ◌≡◌, refl, ◌∙◌, ◌≢◌, ◌⊎◌, ◌↔◌, inl, inr, String, Option, none, some, List, [],
  ◌∷◌, ◌++◌, All, All-append, arith, str_eq_iff,
}
use microservices_base_platf.Notification.Domain.{Uuid, NotificationTask}
use microservices_base_platf.Notification.Breaker.{opened, half_open, execute}
use microservices_base_platf.Notification.Email.{
  Mail, Publication, Config, Answers, World, SendError, empty_recipient, breaker_open, smtp_failed,
  reject_to_dlq, send_email, after_send, handle_message, mail_of, retry_publication, deliver_all,
}

-- The breaker is open and has been so for longer than its open duration.
abbrev pub IsCooled : Answers → World → Type 0
IsCooled a w =
    (w.breaker.state ≡ opened) × (w.breaker.open_duration < a.now - w.breaker.last_failure_time)

-- The mail was taken by the SMTP server, and the worker returned no error for it.
abbrev pub IsSent : Answers → Mail → World → World → Type 0
IsSent a m w w' = (a.smtp ≡ none) × (w'.mails ≡ w.mails ++ m ∷ [])

module _ (a : Answers) (m : Mail) (w : World) where
  send_email_cases :
      let r = send_email a m w in
      ((r.1 ≡ none) × (m.recipient ≢ "") × (w.breaker.state ≢ opened) × IsSent a m w r.0)
      ⊎ ((r.1 ≡ none)
          × (m.recipient ≢ "")
          × IsCooled a w
          × (r.0.mails ≡ w.mails)
          × (r.0.breaker.state ≡ half_open))
      ⊎ ((r.1 ≢ none) × (r.0.mails ≡ w.mails))
  unfolding send_email execute
  send_email_cases = ground (arith, str_eq_iff m.recipient "")

  pub send_email_frame :
      let r = send_email a m w in
      (r.0.published ≡ w.published)
      × (r.0.notifications ≡ w.notifications)
      × (r.0.campaigns ≡ w.campaigns)
      × (r.0.recipients ≡ w.recipients)
  unfolding send_email execute
  send_email_frame = ground arith

  pub send_email_empty : m.recipient ≡ "" → send_email a m w ≡ (w, some empty_recipient)
  unfolding send_email
  send_email_empty e = rw (e, send_email) refl

-- What `after_send` does with each result of the send.
module _ (parse_uuid : String → Option Uuid) (cfg : Config) (a : Answers) (task : NotificationTask)
    (w : World) where
  after_send_cases :
      (e : Option SendError)
      → let r = after_send parse_uuid cfg a task w e in
        (r.0.mails ≡ w.mails)
        × (r.0.breaker ≡ w.breaker)
        × (((r.1 ≡ none) × (e ≡ none) × (r.0.published ≡ w.published))
            ⊎ ((r.1 ≡ none)
                × (e ≢ none)
                × (task.retry_count < cfg.max_retries)
                × (r.0.published ≡ w.published ++ retry_publication cfg task ∷ []))
            ⊎ ((r.1 ≢ none) × (r.0.published ≡ w.published)))
  unfolding after_send
  after_send_cases none = ground arith
  after_send_cases (some breaker_open) = ground arith
  after_send_cases (some empty_recipient) = ground arith
  after_send_cases (some (smtp_failed e)) = ground arith

module _ (parse_uuid : String → Option Uuid) (cfg : Config) (a : Answers) (w : World) where
  -- An acknowledged message is accounted for in one of three ways: its mail was taken by the SMTP
  -- server; or it was published for a retry, with its retry count one higher and not above the
  -- limit; or the breaker was open and cooled down, and then nothing was sent, nothing was
  -- published, and the breaker is half-open.
  pub handle_message_acked :
      (task : NotificationTask)
      → (handle_message parse_uuid cfg a (some task) w).1 ≡ none
      → let w' = (handle_message parse_uuid cfg a (some task) w).0 in
        (IsSent a (mail_of parse_uuid task) w w' × (w'.published ≡ w.published))
        ⊎ ((w'.published ≡ w.published ++ retry_publication cfg task ∷ [])
            × (task.retry_count + 1 ≤ cfg.max_retries)
            × (w'.mails ≡ w.mails))
        ⊎ (IsCooled a w
            × (w'.mails ≡ w.mails)
            × (w'.published ≡ w.published)
            × (w'.breaker.state ≡ half_open))
  unfolding handle_message
  handle_message_acked task h =
      let r = send_email a (mail_of parse_uuid task) w in
      ground (
        arith,
        send_email_cases a (mail_of parse_uuid task) w,
        send_email_frame a (mail_of parse_uuid task) w,
        after_send_cases parse_uuid cfg a task r.0 r.1,
      )

  -- The handler rejects a message whose body decodes to the dead-letter queue exactly when the
  -- send failed, not because the breaker was open, and the retries are used up.
  handle_message_rejects :
      (task : NotificationTask)
      → let e = (send_email a (mail_of parse_uuid task) w).1 in
        ((handle_message parse_uuid cfg a (some task) w).1 ≡ some reject_to_dlq)
        ↔ ((e ≢ none) × (e ≢ some breaker_open) × (cfg.max_retries ≤ task.retry_count))
  unfolding handle_message
  handle_message_rejects task = (ground arith, ground arith)

-- No retry on its way has a retry count above the limit.
abbrev pub IsBounded : Config → World → Type 0
IsBounded cfg w = All (λ (p : Publication). p.task.retry_count ≤ cfg.max_retries) w.published

handle_message_published :
    (parse_uuid : String → Option Uuid) (cfg : Config) (a : Answers) (w : World)
    (body : Option NotificationTask)
    → let w' = (handle_message parse_uuid cfg a body w).0 in
      (w'.published ≡ w.published)
      ⊎ ((task : NotificationTask) × (w'.published ≡ w.published ++ retry_publication cfg task ∷ [])
          × (task.retry_count + 1 ≤ cfg.max_retries))
unfolding handle_message
handle_message_published parse_uuid cfg a w none = inl refl
handle_message_published parse_uuid cfg a w (some task) =
    let r = send_email a (mail_of parse_uuid task) w in
    let (m, b, c) = after_send_cases parse_uuid cfg a task r.0 r.1 in
    let same = (send_email_frame a (mail_of parse_uuid task) w).0 in
    elim c [
      | inl (n, e, p) ↦ inl (p ∙ same)
      | inr (inl (n, e, l, p)) ↦ inr (task, rw same at p, omega arith)
      | inr (inr (n, p)) ↦ inl (p ∙ same)
    ]

handle_message-IsBounded :
    (parse_uuid : String → Option Uuid) (cfg : Config) (a : Answers) (w : World)
    (body : Option NotificationTask)
    → IsBounded cfg w
    → IsBounded cfg (handle_message parse_uuid cfg a body w).0
handle_message-IsBounded parse_uuid cfg a w body b =
    elim (handle_message_published parse_uuid cfg a w body) [
      | inl e ↦ rw e b
      | inr (task, e, l) ↦ rw e (All-append _ w.published _ b (l, tt))
    ]

-- Whatever messages the worker is given, and whatever answers it meets, no retry that it publishes
-- carries a retry count above the limit, if none did before.
deliver_all-IsBounded :
    (parse_uuid : String → Option Uuid) (cfg : Config) (w : World)
    (ds : List (Answers × Option NotificationTask))
    → IsBounded cfg w
    → IsBounded cfg (deliver_all parse_uuid cfg w ds)
unfolding deliver_all
deliver_all-IsBounded parse_uuid cfg w [] b = b
deliver_all-IsBounded parse_uuid cfg w ((a, body) ∷ ds) b =
    deliver_all-IsBounded parse_uuid cfg (handle_message parse_uuid cfg a body w).0 ds
      (handle_message-IsBounded parse_uuid cfg a w body b)
