-- ===== src/Notification/Outbox/Delivery.antt =====
-- Which outbox events reach the broker, and which never will.
use microservices_base_platf.Prelude.{
  ℕ, ◌≡◌, refl, ◌∙◌, sym, ◌≢◌, inl, inr, String, Bool, true, false, Option, none, some, List, [],
  ◌∷◌, ◌++◌, map, take, select, update_where, order_by, All, All-take, All-order_by, ◌==◌,
  if◌then◌else◌, Bool-cases, is_none, arith, eqb_iff,
}
use mathlib.Core.List.{append-nil, append_assoc}
use microservices_base_platf.Notification.Domain.{Uuid, OutboxEvent, OutboxStatus}
use microservices_base_platf.Notification.Outbox.Table.{
  is_claimable, id_in, pending_batch, claim_pending_batch, mark_published, increment_retry,
  mark_failed,
}
use microservices_base_platf.Notification.Outbox.{
  Config, World, Answers, publication, after_publish, publish_event, publish_all, process_batch,
  run_rounds,
}

publish_event-published :
    (cfg : Config) (a : Answers) (e : OutboxEvent) (w : World)
    → (publish_event cfg a e w).published
      ≡ (if is_none a.publish then w.published ++ publication cfg e ∷ [] else w.published)
unfolding publish_event
publish_event-published cfg a e w = ground arith

abbrev pub is_accepted : (Uuid → Answers) → OutboxEvent → Bool
is_accepted answers e = is_none (answers e.id).publish

publish_all-published :
    (cfg : Config) (answers : Uuid → Answers) (events : List OutboxEvent) (w : World)
    → (publish_all cfg answers events w).published
      ≡ w.published ++ map (publication cfg) (select (is_accepted answers) events)
unfolding publish_all
publish_all-published cfg answers [] w = sym (append-nil w.published)
publish_all-published cfg answers (e ∷ events) w =
    publish_all-published cfg answers events (publish_event cfg (answers e.id) e w)
    ∙ elim (Bool-cases (is_accepted answers e)) [
      | inl y ↦
          rw (publish_event-published cfg (answers e.id) e w, y)
            (append_assoc w.published (publication cfg e ∷ []) _)
      | inr n ↦ rw (publish_event-published cfg (answers e.id) e w, n)
    ]

-- A round of the worker publishes the claimed events that the broker takes, each once, oldest
-- first, and nothing else: these are at most `outbox_batch_size` of the pending, unpublished rows.
pub process_batch-published :
    (cfg : Config) (answers : Uuid → Answers) (w : World)
    → (process_batch cfg none answers w).published
      ≡ w.published
        ++ map (publication cfg) (
            select (is_accepted answers) (
              take cfg.outbox_batch_size
                (order_by (λ e. e.created_at) (select is_claimable w.outbox))))
unfolding process_batch claim_pending_batch pending_batch
process_batch-published cfg answers w = publish_all-published cfg answers _ _

-- The rows that have an id.
abbrev pub rows_of : Uuid → List OutboxEvent → List OutboxEvent
rows_of id = select (λ r. r.id == id)

-- Each row with this id is marked as being processed.
abbrev pub IsProcessing : Uuid → List OutboxEvent → Type 0
IsProcessing id rows = All (λ r. r.status ≡ OutboxStatus.processing) (rows_of id rows)

rows_of-update_where :
    (id : Uuid) (p : OutboxEvent → Bool) (f : OutboxEvent → OutboxEvent)
    → ((r : OutboxEvent) → p r ≡ true → (r.id ≢ id) × ((f r).id ≡ r.id))
    → (rows : List OutboxEvent) → rows_of id (update_where p f rows) ≡ rows_of id rows
rows_of-update_where id p f h [] = refl
rows_of-update_where id p f h (r ∷ rows) = elim (Bool-cases (p r)) [
  | inl e ↦ ground (arith, e, h r e, rows_of-update_where id p f h rows)
  | inr e ↦ ground (arith, e, rows_of-update_where id p f h rows)
]

-- The statements that one event runs leave the rows of another id as they are.
module _ (e id : Uuid) (other : e ≢ id) (rows : List OutboxEvent) where
  elsewhere : (r : OutboxEvent) → (r.id == e) ≡ true → r.id ≢ id
  elsewhere r h q = other (sym ((eqb_iff r.id e).0 h) ∙ q)

  rows_of-mark_published : (now : ℕ) → rows_of id (mark_published now e rows) ≡ rows_of id rows
  unfolding mark_published
  rows_of-mark_published now = rows_of-update_where id _ _ (λ r h. (elsewhere r h, refl)) rows

  rows_of-increment_retry :
      (message : String) → rows_of id (increment_retry e message rows) ≡ rows_of id rows
  unfolding increment_retry
  rows_of-increment_retry message = rows_of-update_where id _ _ (λ r h. (elsewhere r h, refl)) rows

  rows_of-mark_failed :
      (message : String) → rows_of id (mark_failed e message rows) ≡ rows_of id rows
  unfolding mark_failed
  rows_of-mark_failed message = rows_of-update_where id _ _ (λ r h. (elsewhere r h, refl)) rows

pub after_publish-rows_of :
    (cfg : Config) (a : Answers) (e : OutboxEvent) (id : Uuid) (w : World) (answer : Option String)
    → e.id ≢ id
    → rows_of id (after_publish cfg a e answer w).outbox ≡ rows_of id w.outbox
unfolding after_publish
after_publish-rows_of cfg a e id w none other =
    ground (arith, rows_of-mark_published e.id id other w.outbox a.now)
after_publish-rows_of cfg a e id w (some m) other = ground (
  arith,
  rows_of-increment_retry e.id id other w.outbox m,
  rows_of-mark_failed e.id id other w.outbox m,
)

publish_all-rows_of :
    (cfg : Config) (answers : Uuid → Answers) (id : Uuid) (events : List OutboxEvent) (w : World)
    → All (λ e. e.id ≢ id) events
    → rows_of id (publish_all cfg answers events w).outbox ≡ rows_of id w.outbox
unfolding publish_all publish_event
publish_all-rows_of cfg answers id [] w h = refl
publish_all-rows_of cfg answers id (e ∷ events) w h =
    let a = answers e.id in
    publish_all-rows_of cfg answers id events (publish_event cfg a e w) h.1
    ∙ after_publish-rows_of cfg a e id w a.publish h.0

processing_unclaimable :
    (r : OutboxEvent) → r.status ≡ OutboxStatus.processing → is_claimable r ≡ false
processing_unclaimable r h = ground arith

claimable_elsewhere :
    (id : Uuid) (rows : List OutboxEvent)
    → IsProcessing id rows
    → All (λ e. e.id ≢ id) (select is_claimable rows)
claimable_elsewhere id [] p = tt
claimable_elsewhere id (r ∷ rows) p = elim (Bool-cases (r.id == id)) [
  | inl e ↦
      let q : (r.status ≡ OutboxStatus.processing) × IsProcessing id rows = rw e at p in
      rw (processing_unclaimable r q.0) (claimable_elsewhere id rows q.1)
  | inr e ↦
      let ih = claimable_elsewhere id rows (rw e at p) in
      elim (Bool-cases (is_claimable r)) [
        | inl c ↦ rw c ((λ q. cc ((eqb_iff r.id id).1 q)), ih)
        | inr c ↦ rw c ih
      ]
]

id_in-false :
    (id : Uuid) (events : List OutboxEvent) → All (λ e. e.id ≢ id) events → id_in events id ≡ false
id_in-false id [] h = refl
id_in-false id (e ∷ events) h = ground (arith, id_in-false id events h.1)

process_batch-rows_of :
    (cfg : Config) (claim : Option String) (answers : Uuid → Answers) (id : Uuid) (w : World)
    → IsProcessing id w.outbox
    → rows_of id (process_batch cfg claim answers w).outbox ≡ rows_of id w.outbox
unfolding process_batch claim_pending_batch pending_batch
process_batch-rows_of cfg (some m) answers id w p = refl
process_batch-rows_of cfg none answers id w p =
    publish_all-rows_of cfg answers id _ _ others
    ∙ rows_of-update_where id _ _ (λ r h. ((λ q. cc (id_in-false id _ others)), refl)) w.outbox
  where
    others :
        All
          (λ e. e.id ≢ id)
          (take cfg.outbox_batch_size (order_by (λ e. e.created_at) (select is_claimable w.outbox)))
    others =
        All-take _ cfg.outbox_batch_size _ (All-order_by _ _ _ (claimable_elsewhere id w.outbox p))

-- An event whose row is marked as being processed when a round begins, because a worker stopped
-- after its claim or because the statement after the publish failed, is out of reach of every
-- later round, whatever answers these meet: its row stays as it is.
pub run_rounds-strands :
    (cfg : Config) (rounds : List (Option String × (Uuid → Answers))) (id : Uuid) (w : World)
    → IsProcessing id w.outbox
    → rows_of id (run_rounds cfg rounds w).outbox ≡ rows_of id w.outbox
unfolding run_rounds
run_rounds-strands cfg [] id w p = refl
run_rounds-strands cfg ((claim, answers) ∷ rounds) id w p =
    let w' = process_batch cfg claim answers w in
    let same = process_batch-rows_of cfg claim answers id w p in
    run_rounds-strands cfg rounds id w' (rw same p) ∙ same
