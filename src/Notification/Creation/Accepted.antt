-- ===== src/Notification/Creation/Accepted.antt =====
-- What a request leaves behind: both rows or none.
use microservices_base_platf.Prelude.{
  ◌≡◌, refl, ◌∙◌, ap, subst, ◌⊎◌, inl, inr, String, Bool, true, false, Option, none, some, [], ◌∷◌,
  ◌++◌, str_eq, if◌then◌else◌, Bool-cases,
}
use microservices_base_platf.Notification.Domain.{
  Notification, NotificationStatus, NotificationTemplate, OutboxEvent, OutboxStatus, channel_email,
}
use microservices_base_platf.Notification.Repository.{create_notification}
use microservices_base_platf.Notification.Outbox.Table.{create_event}
use microservices_base_platf.Notification.Preferences
use microservices_base_platf.Notification.Preferences.{is_notification_enabled}
use microservices_base_platf.Notification.Preferences.Coherent.{
  IsCoherent, setting, is_notification_enabled_lem,
}
use microservices_base_platf.Notification.Creation.{
  Library, SendRequest, World, Answers, CreationError, skipped, accepted, Response, opted_out,
  is_refused, metadata_text, draft, check_recipient, task_of, event_of, transaction,
  create_with_outbox, build, create_from_template,
}

module _ {Payload Metadata : Type 0} (lib : Library Payload Metadata) (a : Answers)
    (r : SendRequest Payload Metadata) (t : NotificationTemplate) where
  -- The notification that a request asks for.
  pub record IsAsked (n : Notification) : Type 0 where
    pub user : n.user_id ≡ r.user_id
    pub channel : n.channel ≡ t.channel
    pub subject : lib.render t.subject r.payload ≡ some n.subject
    pub content : lib.render t.content r.payload ≡ some n.content
    pub is_pending : n.status ≡ NotificationStatus.pending
    pub address :
        (if str_eq n.channel channel_email then lib.is_address n.recipient else true) ≡ true

  -- The rows that an accepted request adds.
  pub record IsAccepted (w : World) (id : String) (w' : World) : Type 0 where
    pub n : Notification
    pub event : OutboxEvent
    pub asked : IsAsked n
    pub rows : w'.notifications ≡ w.notifications ++ n ∷ []
    pub events : w'.outbox ≡ w.outbox ++ event ∷ []
    pub preferences : w'.preferences ≡ w.preferences
    pub answer : id ≡ lib.text_of n.id
    pub linked : event.aggregate_id ≡ n.id
    pub payload : event.payload ≡ task_of lib n
    pub routing : event.routing_key ≡ n.channel
    pub waits : event.status ≡ OutboxStatus.pending

  abbrev pub IsOutcome : World → Response → Type 0
  IsOutcome w x =
      ((e : CreationError) × (x ≡ (inl e, w)))
      ⊎ ((x ≡ (inr skipped, w)) × (opted_out a.preferences r.user_id t w.preferences ≡ true))
      ⊎ ((id : String) × (x.0 ≡ inr (accepted id))
          × IsAccepted w id x.1
          × (opted_out a.preferences r.user_id t w.preferences ≡ false))

  passed :
      (m n : Notification)
      → check_recipient lib (inr m) ≡ inr n
      → (m ≡ n)
        × ((if str_eq m.channel channel_email then lib.is_address m.recipient else true) ≡ true)
  passed m n h = elim (Bool-cases (str_eq m.channel channel_email)) [
    | inl c ↦ elim (Bool-cases (str_eq m.recipient "")) [
      | inl e ↦ cc (rw (c, e) at h)
      | inr e ↦ elim (Bool-cases (lib.is_address m.recipient)) [
        | inl p ↦ (cc (rw (c, e, p) at h), rw c p)
        | inr p ↦ cc (rw (c, e, p) at h)
      ]
    ]
    | inr c ↦ (cc (rw c at h), rw c refl)
  ]

  draft-IsAsked :
      (s c m : Option String) (n : Notification)
      → lib.render t.subject r.payload ≡ s
      → lib.render t.content r.payload ≡ c
      → check_recipient lib (draft lib a r t s c m) ≡ inr n
      → IsAsked n
  draft-IsAsked none c m n hs hc h = cc
  draft-IsAsked (some s) none m n hs hc h = cc
  draft-IsAsked (some s) (some c) none n hs hc h = cc
  draft-IsAsked (some s) (some c) (some m) n hs hc h =
      let (same, address) = passed _ n h in
      subst IsAsked same (record {
        user = refl;
        channel = refl;
        subject = hs;
        content = hc;
        is_pending = refl;
        address = address;
      })

  transaction-IsOutcome :
      (insert event commit : Option String) (n : Notification) (w : World)
      → IsAsked n
      → opted_out a.preferences r.user_id t w.preferences ≡ false
      → IsOutcome w (transaction lib insert event commit a n w)
  unfolding create_notification create_event
  transaction-IsOutcome (some e) event commit n w h o = inl (_, refl)
  transaction-IsOutcome none (some e) commit n w h o = inl (_, refl)
  transaction-IsOutcome none none (some e) n w h o = inl (_, refl)
  transaction-IsOutcome none none none n w h o = inr (
      inr (
        lib.text_of n.id,
        refl,
        record {
          n = n;
          event = event_of lib a n;
          asked = h;
          rows = refl;
          events = refl;
          preferences = refl;
          answer = refl;
          linked = refl;
          payload = refl;
          routing = refl;
          waits = refl;
        },
        o,
      ))

  built-IsOutcome :
      (o : CreationError ⊎ Notification) (w : World)
      → ((n : Notification) → o ≡ inr n → IsAsked n)
      → opted_out a.preferences r.user_id t w.preferences ≡ false
      → IsOutcome w (create_with_outbox lib a o w)
  built-IsOutcome (inl e) w h k = inl (e, refl)
  built-IsOutcome (inr n) w h k =
      transaction-IsOutcome a.insert_notification a.insert_event a.commit n w (h n refl) k

-- A request to send a notification by a template ends in one of three ways, whatever the answers
-- are: with an error, and no table changes; skipped, and no table changes, when the user's
-- preferences refuse it; or accepted when they do not, and then exactly one pending notification to
-- the user with the rendered template was added, with a well-formed recipient if it is an email,
-- together with exactly one pending outbox event for it, whose payload is its task and whose routing
-- key is its channel. So no notification is without its event, and no event without its
-- notification.
pub create_from_template-IsOutcome :
    {Payload Metadata : Type 0} (lib : Library Payload Metadata) (a : Answers)
    (r : SendRequest Payload Metadata) (t : NotificationTemplate) (w : World)
    → IsOutcome lib a r t w (create_from_template lib a r t w)
unfolding create_from_template
create_from_template-IsOutcome lib a r t w =
    by_check (opted_out a.preferences r.user_id t w.preferences) refl
  where
    by_check :
        (b : Bool)
        → opted_out a.preferences r.user_id t w.preferences ≡ b
        → IsOutcome lib a r t w
            (if b then (inr skipped, w) else create_with_outbox lib a (build lib a r t) w)
    by_check true o = inr (inl (refl, o))
    by_check false o =
        built-IsOutcome lib a r t (build lib a r t) w
          (λ n e. draft-IsAsked lib a r t _ _ (metadata_text lib r.metadata) n refl refl e) o

-- A user whose stored preference is off gets no notification of this kind: if the cached entry of
-- the user, if any, is coherent and the query does not fail, the request is skipped.
create_from_template-opted_out :
    {Payload Metadata : Type 0} (lib : Library Payload Metadata) (a : Answers)
    (pa : Preferences.Answers) (r : SendRequest Payload Metadata) (t : NotificationTemplate)
    (w : World)
    → a.preferences ≡ some pa
    → pa.query ≡ none
    → IsCoherent w.preferences r.user_id
    → setting r.user_id t.event_type t.channel w.preferences ≡ false
    → create_from_template lib a r t w ≡ (inr skipped, w)
unfolding create_from_template
create_from_template-opted_out lib a pa r t w p q h s = rw refused refl
  where
    asked : is_notification_enabled pa r.user_id t.event_type t.channel w.preferences ≡ inr false
    asked = elim (is_notification_enabled_lem pa r.user_id t.event_type t.channel w.preferences h) [
      | inl e ↦ e ∙ ap inr s
      | inr (m, e, n) ↦ cc
    ]

    refused : opted_out a.preferences r.user_id t w.preferences ≡ true
    refused = ap (λ o. opted_out o r.user_id t w.preferences) p ∙ ap is_refused asked
