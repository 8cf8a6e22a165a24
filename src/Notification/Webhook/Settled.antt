-- ===== src/Notification/Webhook/Settled.antt =====
-- What the settlement of a webhook's message says of the notification.
use microservices_base_platf.Prelude.{
  ◌≡◌, ◌≢◌, refl, sym, ap, subst, ◌⊎◌, inl, inr, String, Bool, true, false, Option, none, some,
  List, [], ◌∷◌, All, ◌==◌, eqb_iff, Bool-cases, ◌∙◌,
}
use microservices_base_platf.Platform.Broker.Consumer.{
  Settlement, ack, requeue, reject, Incoming, context_done, channel_closed, delivery, settlement_of,
  handle_messages,
}
use microservices_base_platf.Notification.Domain.{Uuid, Time, Notification, NotificationStatus}
use microservices_base_platf.Notification.Repository.{update_delivery_status}
use microservices_base_platf.Notification.Webhook.{
  MailpitWebhook, HeaderMap, HttpResponse, Answers, WebhookError, is_reject, carried_out, values,
  first_value, headers_in, if_ok, named_in, update_parsed, update_status, headers_url, update_named,
  handle_mailpit_webhook, handle_decoded, handle_message, worker,
}

-- A response of Mailpit whose first header X-Notification-Id is a text.
abbrev pub Tells : Option HttpResponse → String → Type 0
Tells none v = ⊥
Tells (some r) v =
    (r.status_code ≡ 200)
    × (h : HeaderMap) × (r.headers ≡ some h)
    × (vs : List String) × (values "X-Notification-Id" h ≡ v ∷ vs)

-- A notification that was sent, without an error.
abbrev pub IsSent : Notification → Type 0
IsSent n = (n.status ≡ NotificationStatus.sent) × (n.error_message ≡ none)

-- All rows with an id are sent.
abbrev pub AreSent : Uuid → List Notification → Type 0
AreSent id = All (λ n. n.id ≡ id → IsSent n)

update-AreSent-new :
    (now : Time) (id : Uuid) (rows : List Notification)
    → AreSent id (update_delivery_status now id NotificationStatus.sent "" (some now) none rows)
unfolding update_delivery_status
update-AreSent-new now id [] = tt
update-AreSent-new now id (n ∷ rows) = elim (Bool-cases (n.id == id)) [
  | inl e ↦ rw e ((λ h. (refl, refl)), update-AreSent-new now id rows)
  | inr e ↦
      rw e ((λ h. absurd (differs (sym e ∙ (eqb_iff n.id id).1 h))), update-AreSent-new now id rows)
]
  where
    differs : false ≢ true
    differs h = cc

update-AreSent-old :
    (now : Time) (id other : Uuid) (rows : List Notification)
    → AreSent other rows
    → AreSent other (update_delivery_status now id NotificationStatus.sent "" (some now) none rows)
unfolding update_delivery_status
update-AreSent-old now id other [] h = tt
update-AreSent-old now id other (n ∷ rows) h = elim (Bool-cases (n.id == id)) [
  | inl e ↦ rw e ((λ k. (refl, refl)), update-AreSent-old now id other rows h.1)
  | inr e ↦ rw e (h.0, update-AreSent-old now id other rows h.1)
]

-- What a response that names no error tells.
named-Tells : (r : Option HttpResponse) (v : String) → named_in r ≡ (none, v) → Tells r v
named-Tells none v e = cc
named-Tells (some r) v e = by_status (r.status_code == 200) refl e
  where
    by_values :
        (h : HeaderMap) (vs : List String)
        → values "X-Notification-Id" h ≡ vs
        → first_value vs ≡ (none, v)
        → (rest : List String) × (values "X-Notification-Id" h ≡ v ∷ rest)
    by_values h [] q k = cc
    by_values h (x ∷ rest) q k = (rest, q ∙ ap (λ y. y ∷ rest) (ap (λ z. z.1) k))

    by_headers :
        (o : Option HeaderMap)
        → r.headers ≡ o
        → headers_in o ≡ (none, v)
        → (h : HeaderMap) × (r.headers ≡ some h)
          × (vs : List String) × (values "X-Notification-Id" h ≡ v ∷ vs)
    by_headers none q k = cc
    by_headers (some h) q k =
        let (rest, e) = by_values h (values "X-Notification-Id" h) refl k in (h, q, rest, e)

    by_status : (b : Bool) → (r.status_code == 200) ≡ b → if_ok b r ≡ (none, v) → Tells (some r) v
    by_status false q k = cc
    by_status true q k =
        let (h, e, rest, t) = by_headers r.headers refl k in
        ((eqb_iff r.status_code 200).0 q, h, e, rest, t)

abbrev rejects : Option WebhookError → Bool
rejects none = false
rejects (some x) = is_reject x

not_rejected : (r : Option HttpResponse) → rejects (named_in r).0 ≡ false
not_rejected none = refl
not_rejected (some r) = by_status (r.status_code == 200)
  where
    by_values : (vs : List String) → rejects (first_value vs).0 ≡ false
    by_values [] = refl
    by_values (v ∷ vs) = refl

    by_headers : (o : Option HeaderMap) → rejects (headers_in o).0 ≡ false
    by_headers none = refl
    by_headers (some h) = by_values (values "X-Notification-Id" h)

    by_status : (b : Bool) → rejects (if_ok b r).0 ≡ false
    by_status false = refl
    by_status true = by_headers r.headers

module _ (parse_uuid : String → Option Uuid) (decode : String → Option MailpitWebhook)
    (base : String) where
  -- The notification that a message is about, by the header that Mailpit reports for its mail.
  abbrev pub Names : Answers × String → Uuid → Type 0
  Names (a, body) id =
      (webhook : MailpitWebhook) × (v : String) × (decode body ≡ some webhook)
      × Tells (a.get (headers_url base webhook)) v
      × (parse_uuid v ≡ some id)

  -- Without an error, the notification that the message names was set to sent; with one, nothing
  -- was changed, and it is a rejection exactly for a message that cannot be read.
  abbrev pub IsOutcome :
      Answers × String → List Notification → List Notification × Option WebhookError → Type 0
  IsOutcome d rows (rows', none) =
      (id : Uuid) × Names d id
      × (rows'
          ≡ update_delivery_status d.0.now id NotificationStatus.sent "" (some d.0.now) none rows)
  IsOutcome d rows (rows', some e) =
      (rows' ≡ rows)
      × (((is_reject e ≡ true) × (decode d.1 ≡ none))
          ⊎ ((is_reject e ≡ false) × (webhook : MailpitWebhook) × (decode d.1 ≡ some webhook)))

  pub handle_message-IsOutcome :
      (d : Answers × String) (rows : List Notification)
      → IsOutcome d rows (handle_message parse_uuid decode base d.0 d.1 rows)
  unfolding handle_message handle_mailpit_webhook update_status
  handle_message-IsOutcome (a, body) rows = by_body (decode body) refl
    where
      by_update :
          (webhook : MailpitWebhook) (v : String) (id : Uuid) (u : Option String)
          → decode body ≡ some webhook
          → Tells (a.get (headers_url base webhook)) v
          → parse_uuid v ≡ some id
          → IsOutcome
              (a, body)
              rows
              (carried_out u rows
                (update_delivery_status a.now id NotificationStatus.sent "" (some a.now) none rows))
      by_update webhook v id none e t p = (id, (webhook, v, e, t, p), refl)
      by_update webhook v id (some f) e t p = (refl, inr (refl, webhook, e))

      by_id :
          (webhook : MailpitWebhook) (v : String) (o : Option Uuid)
          → decode body ≡ some webhook
          → Tells (a.get (headers_url base webhook)) v
          → parse_uuid v ≡ o
          → IsOutcome
              (a, body)
              rows
              (update_parsed parse_uuid a o NotificationStatus.sent "" (some a.now) rows)
      by_id webhook v none e t p = (refl, inr (refl, webhook, e))
      by_id webhook v (some id) e t p = by_update webhook v id a.update e t p

      by_name :
          (webhook : MailpitWebhook) (x : Option WebhookError × String)
          → decode body ≡ some webhook
          → named_in (a.get (headers_url base webhook)) ≡ x
          → IsOutcome (a, body) rows (update_named parse_uuid a x rows)
      by_name webhook (none, v) e q = by_id webhook v (parse_uuid v) e (named-Tells _ v q) refl
      by_name webhook (some f, v) e q = (
        refl,
        inr (
          sym (ap (λ y. rejects y.0) q) ∙ not_rejected (a.get (headers_url base webhook)),
          webhook,
          e,
        ),
      )

      by_body :
          (o : Option MailpitWebhook)
          → decode body ≡ o
          → IsOutcome (a, body) rows (handle_decoded parse_uuid decode base a o rows)
      by_body none e = (refl, inl (refl, e))
      by_body (some webhook) e =
          by_name webhook (named_in (a.get (headers_url base webhook))) e refl

  -- What a settlement says, in view of the rows in the end.
  abbrev pub IsSettled : List Notification → (Answers × String) × Settlement → Type 0
  IsSettled end (d, ack) = (id : Uuid) × Names d id × AreSent id end
  IsSettled end (d, requeue) = (webhook : MailpitWebhook) × (decode d.1 ≡ some webhook)
  IsSettled end (d, reject) = decode d.1 ≡ none

  -- Once sent, a notification stays sent.
  stays-AreSent :
      (id : Uuid) (ds : List (Incoming (Answers × String))) (rows : List Notification)
      → AreSent id rows
      → AreSent id (handle_messages (worker parse_uuid decode base) ds rows).1
  unfolding handle_messages
  stays-AreSent id [] rows h = h
  stays-AreSent id (context_done ∷ ds) rows h = h
  stays-AreSent id (channel_closed ∷ ds) rows h = h
  stays-AreSent id (delivery d ∷ ds) rows h =
      stays-AreSent id ds _ (by_outcome _ (handle_message-IsOutcome d rows))
    where
      by_outcome :
          (x : List Notification × Option WebhookError) → IsOutcome d rows x → AreSent id x.0
      by_outcome (rows', none) (i, n, e) =
          subst (AreSent id) (sym e) (update-AreSent-old d.0.now i id rows h)
      by_outcome (rows', some f) (e, k) = subst (AreSent id) (sym e) h

  IsSettled-now :
      (d : Answers × String) (rows end : List Notification)
      (x : List Notification × Option WebhookError)
      → IsOutcome d rows x
      → ((id : Uuid) → AreSent id x.0 → AreSent id end)
      → IsSettled end (d, settlement_of (worker parse_uuid decode base) x.1)
  IsSettled-now d rows end (rows', none) (id, n, e) f =
      (id, n, f id (subst (AreSent id) (sym e) (update-AreSent-new d.0.now id rows)))
  IsSettled-now d rows end (rows', some g) (e, inl (r, u)) f = rw r u
  IsSettled-now d rows end (rows', some g) (e, inr (r, webhook, u)) f = rw r (webhook, u)

-- Whatever Mailpit and the database answer, and whatever messages the webhook worker takes from its
-- queue: of a message that it acknowledged, Mailpit told the notification's id, and all rows with
-- that id are sent in the end, without an error message; a rejected message could not be read; and
-- one that goes back to the queue could be.
pub handle_messages-IsSettled :
    (parse_uuid : String → Option Uuid) (decode : String → Option MailpitWebhook) (base : String)
    (ds : List (Incoming (Answers × String))) (rows : List Notification)
    → All
        (IsSettled parse_uuid decode base
          (handle_messages (worker parse_uuid decode base) ds rows).1)
        (handle_messages (worker parse_uuid decode base) ds rows).0
unfolding handle_messages
handle_messages-IsSettled parse_uuid decode base [] rows = tt
handle_messages-IsSettled parse_uuid decode base (context_done ∷ ds) rows = tt
handle_messages-IsSettled parse_uuid decode base (channel_closed ∷ ds) rows = tt
handle_messages-IsSettled parse_uuid decode base (delivery d ∷ ds) rows = (
  IsSettled-now parse_uuid decode base d rows _ _
      (handle_message-IsOutcome parse_uuid decode base d rows)
      (λ id h. stays-AreSent parse_uuid decode base id ds _ h),
  handle_messages-IsSettled parse_uuid decode base ds _,
)
