-- ===== src/Notification/Email/CampaignMail/Counters.antt =====
-- The counters of a campaign under the deliveries of its messages.
use microservices_base_platf.Prelude.{
  ℕ, ◌+◌, ◌≡◌, refl, ◌∙◌, ap, ◌≢◌, ◌⊎◌, inl, inr, String, Option, none, some, List, [], ◌∷◌, map,
  update_where, ◌==◌, arith,
}
use microservices_base_platf.Notification.Domain.{Uuid, Campaign, CampaignTask}
use microservices_base_platf.Notification.Repository.{
  CounterField, bump, increment_campaign_counter,
}
use microservices_base_platf.Notification.Email.{
  Answers, World, SendError, empty_recipient, breaker_open, smtp_failed, send_failed, send_email,
  parsed, on_success,
}
use microservices_base_platf.Notification.Email.Laws.{send_email_frame, send_email_empty}
use microservices_base_platf.Notification.Email.CampaignMail.{
  campaign_mail, after_campaign_send, record_outcome, handle_campaign_message, campaign_worker,
}
use microservices_base_platf.Platform.Broker.Consumer.{
  requeue, delivery, settlement_of, handle_messages,
}

module _ (parse_uuid : String → Option Uuid) (a : Answers) (task : CampaignTask) (w : World)
    (counted : a.increment ≡ none) where
  after_send_counts :
      (e : Option SendError)
      → let r = after_campaign_send parse_uuid a task w e in
        let id = parsed parse_uuid task.campaign_id in
        ((e ≡ none)
          × (r.1 ≡ none)
          × (r.0.campaigns ≡ increment_campaign_counter id CounterField.sent_count w.campaigns))
        ⊎ ((e ≡ some breaker_open)
            × (r.1 ≡ some (send_failed breaker_open))
            × (r.0.campaigns ≡ w.campaigns))
        ⊎ ((f : SendError) × (e ≡ some f)
            × (f ≢ breaker_open)
            × (r.1 ≡ some (send_failed f))
            × (r.0.campaigns ≡ increment_campaign_counter id CounterField.failed_count w.campaigns))
  unfolding after_campaign_send record_outcome
  after_send_counts none = ground arith
  after_send_counts (some breaker_open) = ground arith
  after_send_counts (some empty_recipient) =
      inr (inr (empty_recipient, ground arith, ground arith, ground arith, ground arith))
  after_send_counts (some (smtp_failed m)) =
      inr (inr (smtp_failed m, ground arith, ground arith, ground arith, ground arith))

module _ (parse_uuid : String → Option Uuid) (a : Answers) (task : CampaignTask) (w : World) where
  -- If the counter's statement is carried out, a delivery of a campaign message that is
  -- acknowledged adds one to the campaign's `sent_count`; one that meets an open breaker leaves
  -- the counters alone; any other one that returns an error adds one to its `failed_count`.
  pub handle_campaign_message-counts :
      a.increment ≡ none
      → let r = handle_campaign_message parse_uuid a (some task) w in
        let id = parsed parse_uuid task.campaign_id in
        ((r.1 ≡ none)
          × (r.0.campaigns ≡ increment_campaign_counter id CounterField.sent_count w.campaigns))
        ⊎ ((r.1 ≡ some (send_failed breaker_open)) × (r.0.campaigns ≡ w.campaigns))
        ⊎ ((f : SendError) × (f ≢ breaker_open)
            × (r.1 ≡ some (send_failed f))
            × (r.0.campaigns ≡ increment_campaign_counter id CounterField.failed_count w.campaigns))
  unfolding handle_campaign_message
  handle_campaign_message-counts counted =
      let r = send_email a (campaign_mail task) w in
      let same = (send_email_frame a (campaign_mail task) w).2 in
      let bumped = λ (field : CounterField).
        ap (increment_campaign_counter (parsed parse_uuid task.campaign_id) field) same in
      elim (after_send_counts parse_uuid a task r.0 counted r.1) [
        | inl (e, q, c) ↦ inl (q, c ∙ bumped CounterField.sent_count)
        | inr (inl (e, q, c)) ↦ inr (inl (q, c ∙ same))
        | inr (inr (f, e, n, q, c)) ↦ inr (inr (f, n, q, c ∙ bumped CounterField.failed_count))
      ]

abbrev pub add_failures : ℕ → Campaign → Campaign
add_failures n c = record c { failed_count = c.failed_count + n }

-- How many deliveries have their counter's statement carried out.
abbrev pub one_if_counted : Option String → ℕ
one_if_counted none = 1
one_if_counted (some e) = 0

abbrev pub counted_of : List Answers → ℕ
counted_of [] = 0
counted_of (a ∷ answers) = one_if_counted a.increment + counted_of answers

update_failures :
    (id m n : ℕ) (cs : List Campaign)
    → update_where
        (λ c. c.id == id)
        (add_failures n)
        (update_where (λ c. c.id == id) (add_failures m) cs)
      ≡ update_where (λ c. c.id == id) (add_failures (m + n)) cs
update_failures id m n [] = refl
update_failures id m n (c ∷ cs) = ground (arith, update_failures id m n cs)

update_no_failures :
    (id : ℕ) (cs : List Campaign) → cs ≡ update_where (λ c. c.id == id) (add_failures 0) cs
update_no_failures id [] = refl
update_no_failures id (c ∷ cs) = ground (arith, update_no_failures id cs)

-- A recipient without an address makes every delivery fail, in the same way.
empty_recipient-counts :
    (parse_uuid : String → Option Uuid) (a : Answers) (task : CampaignTask) (w : World)
    → task.recipient ≡ ""
    → let r = handle_campaign_message parse_uuid a (some task) w in
      (r.1 ≡ some (send_failed empty_recipient))
      × (r.0.campaigns
          ≡ update_where
              (λ c. c.id == parsed parse_uuid task.campaign_id)
              (add_failures (one_if_counted a.increment))
              w.campaigns)
unfolding handle_campaign_message after_campaign_send record_outcome increment_campaign_counter
empty_recipient-counts parse_uuid a task w e =
    rw (send_email_empty a (campaign_mail task) w e)
      (refl, by_answer (parsed parse_uuid task.campaign_id) a.increment w.campaigns)
  where
    by_answer :
        (id : Uuid) (o : Option String) (cs : List Campaign)
        → on_success o (update_where (λ c. c.id == id) (bump CounterField.failed_count) cs) cs
          ≡ update_where (λ c. c.id == id) (add_failures (one_if_counted o)) cs
    by_answer id none cs = refl
    by_answer id (some f) cs = update_no_failures id cs

-- A message whose recipient has no address goes back to the queue after each of its deliveries,
-- whatever answers they meet: none of them acknowledges or rejects it. The `failed_count` of its
-- campaign grows by one for each delivery whose counter statement is carried out, although it is one
-- recipient.
pub redeliver-overcounts :
    (parse_uuid : String → Option Uuid) (task : CampaignTask) (w : World) (answers : List Answers)
    → task.recipient ≡ ""
    → let r =
        handle_messages
          (campaign_worker parse_uuid)
          (map (λ a. delivery (a, some task)) answers)
          w in
      (r.0 ≡ map (λ a. ((a, some task), requeue)) answers)
      × (r.1.campaigns
          ≡ update_where
              (λ c. c.id == parsed parse_uuid task.campaign_id)
              (add_failures (counted_of answers))
              w.campaigns)
unfolding handle_messages
redeliver-overcounts parse_uuid task w [] e =
    (refl, update_no_failures (parsed parse_uuid task.campaign_id) w.campaigns)
redeliver-overcounts parse_uuid task w (a ∷ answers) e =
    let r = handle_campaign_message parse_uuid a (some task) w in
    let id = parsed parse_uuid task.campaign_id in
    let (q, c) = empty_recipient-counts parse_uuid a task w e in
    let (settled, counts) = redeliver-overcounts parse_uuid task r.0 answers e in
    (
      ap
            (λ x.
              ((a, some task), settlement_of (campaign_worker parse_uuid) x)
              ∷ (handle_messages (campaign_worker parse_uuid)
                  (map (λ a. delivery (a, some task)) answers) r.0).0)
            q
          ∙ ap (λ xs. ((a, some task), requeue) ∷ xs) settled,
      counts
          ∙ ap (update_where (λ c. c.id == id) (add_failures (counted_of answers))) c
          ∙ update_failures id (one_if_counted a.increment) (counted_of answers) w.campaigns,
    )
