-- ===== src/Notification/Webhook/Requeued.antt =====
-- The webhooks of campaign mails.
use Prim.Native.String.{◌++◌ as concat}
use microservices_base_platf.Prelude.{
  ◌≡◌, ◌≢◌, refl, sym, ap, ◌∙◌, inl, inr, String, Option, none, some, List, [], ◌∷◌, ◌++◌, map, All,
}
use microservices_base_platf.Platform.Broker.Consumer.{
  requeue, delivery, settlement_of, handle_messages,
}
use microservices_base_platf.Notification.Domain.{Uuid, Notification, CampaignTask}
use microservices_base_platf.Notification.Email as Email
use microservices_base_platf.Notification.Email.{Mail}
use microservices_base_platf.Notification.Email.CampaignMail.{handle_campaign_message}
use microservices_base_platf.Notification.Email.CampaignMail.Mails.{new_mail}
use microservices_base_platf.Notification.Webhook.{
  MailpitWebhook, Answers, WebhookError, headers_url, worker, handle_message,
}
use microservices_base_platf.Notification.Webhook.Settled.{
  Tells, IsOutcome, handle_message-IsOutcome,
}

module _ (parse_uuid : String → Option Uuid) (decode : String → Option MailpitWebhook)
    (base : String) where
  -- The id that an answer tells, if it tells one.
  abbrev pub TellsOnly : MailpitWebhook → String → Answers → Type 0
  TellsOnly webhook id a = (v : String) → Tells (a.get (headers_url base webhook)) v → v ≡ id

  -- An id that does not parse is an error that is no rejection, whatever the table holds.
  handle_message_refused :
      (a : Answers) (body id : String) (webhook : MailpitWebhook) (rows : List Notification)
      → decode body ≡ some webhook
      → TellsOnly webhook id a
      → parse_uuid id ≡ none
      → ((handle_message parse_uuid decode base a body rows).0 ≡ rows)
        × (settlement_of
              (worker parse_uuid decode base)
              (handle_message parse_uuid decode base a body rows).1
            ≡ requeue)
  handle_message_refused a body id webhook rows d t p =
      by_outcome _ (handle_message-IsOutcome parse_uuid decode base (a, body) rows)
    where
      by_outcome :
          (x : List Notification × Option WebhookError)
          → IsOutcome parse_uuid decode base (a, body) rows x
          → (x.0 ≡ rows) × (settlement_of (worker parse_uuid decode base) x.1 ≡ requeue)
      by_outcome (rows', none) (i, (webhook', v, e, told, q), u) =
          let same : webhook' ≡ webhook = cc in
          let named : v ≡ id = t v (rw same at told) in
          absurd (differs i (sym q ∙ ap parse_uuid named ∙ p))
        where
          differs : (i : Uuid) → some i ≢ none
          differs i h = cc
      by_outcome (rows', some e) (u, inl (r, n)) = cc
      by_outcome (rows', some e) (u, inr (r, k, l)) = (u, rw r refl)

  -- So is each delivery of its message.
  deliveries_refused :
      (body id : String) (webhook : MailpitWebhook) (answers : List Answers)
      (rows : List Notification)
      → decode body ≡ some webhook
      → All (TellsOnly webhook id) answers
      → parse_uuid id ≡ none
      → handle_messages (worker parse_uuid decode base) (map (λ a. delivery (a, body)) answers) rows
        ≡ (map (λ a. ((a, body), requeue)) answers, rows)
  unfolding handle_messages
  deliveries_refused body id webhook [] rows d t p = refl
  deliveries_refused body id webhook (a ∷ answers) rows d (t, ts) p =
      let e = (handle_message parse_uuid decode base a body rows).1 in
      let rest =
        handle_messages (worker parse_uuid decode base) (map (λ a. delivery (a, body)) answers) in
      let (same, s) = handle_message_refused a body id webhook rows d t p in
      ap
        (λ x.
          (((a, body), settlement_of (worker parse_uuid decode base) e) ∷ (rest x).0, (rest x).1))
        same
      ∙ ap (λ x. (((a, body), x) ∷ (rest rows).0, (rest rows).1)) s
      ∙ ap (λ y. (((a, body), requeue) ∷ y.0, y.1))
          (deliveries_refused body id webhook answers rows d ts p)

-- If no text behind "campaign:" parses as a UUID, then for each new mail that the email worker sends
-- for a task of a campaign: if Mailpit reports this mail, and its answers, where they tell an id at
-- all, tell the id of this mail, then each delivery of the webhook's message puts it back to the
-- queue, as many as there are and whatever else is answered, and the notifications stay as they are.
pub handle_messages-requeue :
    (parse_uuid : String → Option Uuid) (decode : String → Option MailpitWebhook) (base : String)
    (e : Email.Answers) (task : CampaignTask) (w : Email.World) (m : Mail) (body : String)
    (webhook : MailpitWebhook) (answers : List Answers) (rows : List Notification)
    → ((x : String) → parse_uuid (concat "campaign:" x) ≡ none)
    → (handle_campaign_message parse_uuid e (some task) w).0.mails ≡ w.mails ++ m ∷ []
    → decode body ≡ some webhook
    → All (TellsOnly parse_uuid decode base webhook m.notification_id) answers
    → handle_messages (worker parse_uuid decode base) (map (λ a. delivery (a, body)) answers) rows
      ≡ (map (λ a. ((a, body), requeue)) answers, rows)
handle_messages-requeue parse_uuid decode base e task w m body webhook answers rows p n d t =
    deliveries_refused parse_uuid decode base body m.notification_id webhook answers rows d t (
      ap (λ x. parse_uuid x.notification_id) (new_mail parse_uuid e task w m n)
      ∙ p (concat task.campaign_id (concat ":" task.user_id)))
