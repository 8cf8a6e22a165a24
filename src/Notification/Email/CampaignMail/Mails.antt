-- ===== src/Notification/Email/CampaignMail/Mails.antt =====
-- The mails that the messages of the campaign queue send.
use microservices_base_platf.Prelude.{
  ◌≡◌, ◌≢◌, refl, sym, ap, ◌∙◌, ◌⊎◌, inl, inr, String, Option, none, some, List, [], ◌∷◌, ◌++◌,
  length, length-append, arith,
}
use microservices_base_platf.Notification.Domain.{Uuid, CampaignTask}
use microservices_base_platf.Notification.Breaker.{execute}
use microservices_base_platf.Notification.Email.{
  Answers, World, Mail, SendError, empty_recipient, breaker_open, smtp_failed, send_email,
}
use microservices_base_platf.Notification.Email.CampaignMail.{
  campaign_mail, after_campaign_send, record_outcome, handle_campaign_message,
}

-- What the send appends to the mails that Mailpit took.
send_email_mails :
    (a : Answers) (m : Mail) (w : World)
    → ((send_email a m w).0.mails ≡ w.mails) ⊎ ((send_email a m w).0.mails ≡ w.mails ++ m ∷ [])
unfolding send_email execute
send_email_mails a m w = ground arith

after_send_mails :
    (parse_uuid : String → Option Uuid) (a : Answers) (task : CampaignTask) (w : World)
    (e : Option SendError)
    → (after_campaign_send parse_uuid a task w e).0.mails ≡ w.mails
unfolding after_campaign_send record_outcome
after_send_mails parse_uuid a task w none = refl
after_send_mails parse_uuid a task w (some breaker_open) = refl
after_send_mails parse_uuid a task w (some empty_recipient) = refl
after_send_mails parse_uuid a task w (some (smtp_failed e)) = refl

appended_longer {ℓ} : {A : Type ℓ} (x : A) (xs : List A) → xs ≢ xs ++ x ∷ []
appended_longer x xs h = omega (arith, ap length h, length-append xs (x ∷ []))

appended_same {ℓ} : {A : Type ℓ} (x y : A) (xs : List A) → xs ++ x ∷ [] ≡ xs ++ y ∷ [] → x ≡ y
appended_same x y [] h = cc
appended_same x y (z ∷ zs) h = appended_same x y zs cc

-- The audit and the counters leave the mails alone.
pub handle_campaign_message-mails :
    (parse_uuid : String → Option Uuid) (a : Answers) (task : CampaignTask) (w : World)
    → (handle_campaign_message parse_uuid a (some task) w).0.mails
      ≡ (send_email a (campaign_mail task) w).0.mails
unfolding handle_campaign_message
handle_campaign_message-mails parse_uuid a task w =
    let r = send_email a (campaign_mail task) w in after_send_mails parse_uuid a task r.0 r.1

-- A new mail of a campaign's task is the one that the worker makes for it.
pub new_mail :
    (parse_uuid : String → Option Uuid) (a : Answers) (task : CampaignTask) (w : World) (m : Mail)
    → (handle_campaign_message parse_uuid a (some task) w).0.mails ≡ w.mails ++ m ∷ []
    → m ≡ campaign_mail task
new_mail parse_uuid a task w m h =
    let kept = handle_campaign_message-mails parse_uuid a task w in
    elim (send_email_mails a (campaign_mail task) w) [
      | inl e ↦ absurd (appended_longer m w.mails (sym e ∙ sym kept ∙ h))
      | inr e ↦ appended_same m (campaign_mail task) w.mails (sym h ∙ kept ∙ e)
    ]
