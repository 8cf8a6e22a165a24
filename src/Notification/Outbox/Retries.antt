-- ===== src/Notification/Outbox/Retries.antt =====
-- The retry counts of outbox events stay below the configured limit.
use microservices_base_platf.Prelude.{
  ℕ, ◌+◌, ◌<◌, ◌≡◌, refl, sym, ◌≢◌, inl, inr, String, Bool, Option, none, some, List, [], ◌∷◌,
  update_where, All, All-select, All-take, All-order_by, All-map, All-both, All-update_where,
  Distinct, Distinct-select, Distinct-order_by, Distinct-take, Distinct-update_where, ◌==◌,
  Bool-cases, leb, arith, eqb_refl, ne→eqb,
}
use microservices_base_platf.Notification.Domain.{Uuid, OutboxEvent}
use microservices_base_platf.Notification.Outbox.Table.{
  is_claimable, claim_row, pending_batch, claim_pending_batch, mark_published, increment_retry,
  mark_failed,
}
use microservices_base_platf.Notification.Outbox.{
  Config, World, Answers, on_success, give_up, after_publish, publish_event, publish_all,
  process_batch, run_rounds,
}
use microservices_base_platf.Notification.Outbox.Delivery.{rows_of, after_publish-rows_of}

abbrev pub id_of : OutboxEvent → Uuid
id_of e = e.id

-- Ids are unique, and no row has used up its attempts.
pub record IsValid (max : ℕ) (rows : List OutboxEvent) : Type 0 where
  pub unique : Distinct id_of rows
  pub below : All (λ r. r.retry_count < max) rows

-- What was read of an event still holds of its row.
abbrev IsFresh : List OutboxEvent → OutboxEvent → Type 0
IsFresh rows e = All (λ r. r.retry_count ≡ e.retry_count) (rows_of e.id rows)

increment_retry-below :
    (max : ℕ) (e : OutboxEvent) (m : String) (rows : List OutboxEvent)
    → e.retry_count + 1 < max
    → IsFresh rows e
    → All (λ r. r.retry_count < max) rows
    → All (λ r. r.retry_count < max) (increment_retry e.id m rows)
unfolding increment_retry
increment_retry-below max e m [] l f b = tt
increment_retry-below max e m (r ∷ rows) l f b = elim (Bool-cases (r.id == e.id)) [
  | inl h ↦
      let g : (r.retry_count ≡ e.retry_count) × IsFresh rows e = rw h at f in
      rw h (rw g.0 l, increment_retry-below max e m rows l g.1 b.1)
  | inr h ↦ rw h (b.0, increment_retry-below max e m rows l (rw h at f) b.1)
]

-- A statement that keeps the ids and the retry counts.
update_where-IsValid :
    (max : ℕ) (p : OutboxEvent → Bool) (f : OutboxEvent → OutboxEvent)
    → ((r : OutboxEvent) → (f r).id ≡ r.id)
    → ((r : OutboxEvent) → (f r).retry_count ≡ r.retry_count)
    → (rows : List OutboxEvent) → IsValid max rows
    → IsValid max (update_where p f rows)
update_where-IsValid max p f keeps_id keeps_count rows v = record {
  unique = Distinct-update_where id_of p f keeps_id rows v.unique;
  below =
      All-update_where (λ r. r.retry_count < max) p f (λ r _ h. omega (arith, keeps_count r)) rows
        v.below;
}

on_success-IsValid :
    (max : ℕ) (o : Option String) (done undone : List OutboxEvent)
    → IsValid max done
    → IsValid max undone
    → IsValid max (on_success o done undone)
on_success-IsValid max none done undone v u = v
on_success-IsValid max (some e) done undone v u = u

increment_retry-IsValid :
    (max : ℕ) (e : OutboxEvent) (m : String) (rows : List OutboxEvent)
    → e.retry_count + 1 < max
    → IsFresh rows e
    → IsValid max rows
    → IsValid max (increment_retry e.id m rows)
increment_retry-IsValid max e m rows l f v = record {
  unique = unfold increment_retry in Distinct-update_where id_of _ _ (λ r. refl) rows v.unique;
  below = increment_retry-below max e m rows l f v.below;
}

give_up-IsValid :
    (max : ℕ) (a : Answers) (e : OutboxEvent) (m : String) (w : World)
    → IsValid max w.outbox
    → IsValid max (give_up a e m w).outbox
unfolding give_up mark_failed
give_up-IsValid max a e m w v = go a.fail
  where
    failed : IsValid max (mark_failed e.id m w.outbox)
    failed = update_where-IsValid max _ _ (λ r. refl) (λ r. refl) w.outbox v

    go :
        (o : Option String)
        → IsValid max (on_success o (give_up (record a { fail = none }) e m w) w).outbox
    go none = failed
    go (some _) = v

after_publish-IsValid :
    (cfg : Config) (a : Answers) (e : OutboxEvent) (w : World) (answer : Option String)
    → IsFresh w.outbox e
    → IsValid cfg.outbox_max_retries w.outbox
    → IsValid cfg.outbox_max_retries (after_publish cfg a e answer w).outbox
unfolding after_publish mark_published
after_publish-IsValid cfg a e w none f v =
    on_success-IsValid cfg.outbox_max_retries a.mark _ w.outbox
      (update_where-IsValid cfg.outbox_max_retries _ _ (λ r. refl) (λ r. refl) w.outbox v) v
after_publish-IsValid cfg a e w (some m) f v =
    elim (Bool-cases (leb cfg.outbox_max_retries (e.retry_count + 1))) [
      | inl h ↦ rw h (give_up-IsValid cfg.outbox_max_retries a e m w v)
      | inr h ↦ rw h (
          on_success-IsValid cfg.outbox_max_retries a.increment _ w.outbox
            (increment_retry-IsValid cfg.outbox_max_retries e m w.outbox (ground arith) f v) v)
    ]

publish_all-IsValid :
    (cfg : Config) (answers : Uuid → Answers) (events : List OutboxEvent) (w : World)
    → Distinct id_of events
    → All (IsFresh w.outbox) events
    → IsValid cfg.outbox_max_retries w.outbox
    → IsValid cfg.outbox_max_retries (publish_all cfg answers events w).outbox
unfolding publish_all publish_event
publish_all-IsValid cfg answers [] w d f v = v
publish_all-IsValid cfg answers (e ∷ events) w d f v =
    let a = answers e.id in
    publish_all-IsValid cfg answers events (publish_event cfg a e w) d.1
      (All-both (λ g. g.id ≢ e.id) (IsFresh w.outbox) (IsFresh (publish_event cfg a e w).outbox)
        (λ g other fresh.
          rw (after_publish-rows_of cfg a e g.id w a.publish (λ q. other (sym q))) fresh)
        events d.0 f.1)
      (after_publish-IsValid cfg a e w a.publish f.0 v)

-- With unique ids, each row is what was read of it.
rows_of-none :
    (id : Uuid) (P : OutboxEvent → Type 0) (rows : List OutboxEvent)
    → All (λ r. r.id ≢ id) rows
    → All P (rows_of id rows)
rows_of-none id P [] h = tt
rows_of-none id P (r ∷ rows) h = rw (ne→eqb r.id id h.0) (rows_of-none id P rows h.1)

rows-IsFresh : (rows : List OutboxEvent) → Distinct id_of rows → All (IsFresh rows) rows
rows-IsFresh [] d = tt
rows-IsFresh (r ∷ rows) d = (
  rw (eqb_refl r.id) (refl, rows_of-none r.id _ rows d.0),
  All-both (λ g. g.id ≢ r.id) (IsFresh rows) (IsFresh (r ∷ rows))
      (λ g other fresh. rw (ne→eqb r.id g.id (λ q. other (sym q))) fresh) rows d.0
      (rows-IsFresh rows d.1),
)

claim-IsFresh :
    (p : OutboxEvent → Bool) (e : OutboxEvent) (rows : List OutboxEvent)
    → IsFresh rows e
    → IsFresh (update_where p claim_row rows) e
claim-IsFresh p e [] f = tt
claim-IsFresh p e (r ∷ rows) f = elim (Bool-cases (r.id == e.id)) [
  | inl h ↦
      let g : (r.retry_count ≡ e.retry_count) × IsFresh rows e = rw h at f in
      elim (Bool-cases (p r)) [
        | inl q ↦ rw (q, h) (g.0, claim-IsFresh p e rows g.1)
        | inr q ↦ rw (q, h) (g.0, claim-IsFresh p e rows g.1)
      ]
  | inr h ↦
      let ih = claim-IsFresh p e rows (rw h at f) in
      elim (Bool-cases (p r)) [ inl q ↦ rw (q, h) ih | inr q ↦ rw (q, h) ih ]
]

process_batch-IsValid :
    (cfg : Config) (claim : Option String) (answers : Uuid → Answers) (w : World)
    → IsValid cfg.outbox_max_retries w.outbox
    → IsValid cfg.outbox_max_retries (process_batch cfg claim answers w).outbox
unfolding process_batch claim_pending_batch pending_batch
process_batch-IsValid cfg (some m) answers w v = v
process_batch-IsValid cfg none answers w v =
    publish_all-IsValid cfg answers _ _
      (Distinct-take id_of n _
        (Distinct-order_by created id_of _ (Distinct-select id_of is_claimable w.outbox v.unique)))
      (All-map (IsFresh w.outbox) (IsFresh _) (λ e f. claim-IsFresh _ e w.outbox f) _
        (All-take (IsFresh w.outbox) n _ (
          All-order_by created (IsFresh w.outbox) _ (
            All-select (IsFresh w.outbox) (IsFresh w.outbox) is_claimable (λ e _ f. f) w.outbox
              (rows-IsFresh w.outbox v.unique)))))
      (update_where-IsValid cfg.outbox_max_retries _ _ (λ r. refl) (λ r. refl) w.outbox v)
  where
    n : ℕ
    n = cfg.outbox_batch_size

    created : OutboxEvent → ℕ
    created e = e.created_at

-- Over any rounds of the worker, whatever answers they meet, ids stay unique and every row's
-- retry count stays below `outbox_max_retries`, if this held before: the attempt that would reach
-- the limit gives the event up instead of counting it.
pub run_rounds-IsValid :
    (cfg : Config) (rounds : List (Option String × (Uuid → Answers))) (w : World)
    → IsValid cfg.outbox_max_retries w.outbox
    → IsValid cfg.outbox_max_retries (run_rounds cfg rounds w).outbox
unfolding run_rounds
run_rounds-IsValid cfg [] w v = v
run_rounds-IsValid cfg ((claim, answers) ∷ rounds) w v =
    run_rounds-IsValid cfg rounds (process_batch cfg claim answers w)
      (process_batch-IsValid cfg claim answers w v)
