-- ===== src/Notification/Outbox/Table.antt =====
-- services/notification/internal/repository/outbox_repository.go: the statements on the table
-- `outbox_events`, as functions on its rows.
use microservices_base_platf.Prelude.{
  ℕ, ◌+◌, String, Bool, true, false, ◌&&◌, ◌||◌, none, some, List, [], ◌∷◌, ◌++◌, take, select,
  update_where, order_by, ◌==◌, is_none,
}
use microservices_base_platf.Notification.Domain.{Uuid, Time, OutboxEvent, OutboxStatus}

abbrev pub is_pending : OutboxStatus → Bool
is_pending OutboxStatus.pending = true
is_pending OutboxStatus.processing = false
is_pending OutboxStatus.published = false
is_pending OutboxStatus.failed = false

-- `published_at IS NULL AND status = 'pending'`.
abbrev pub is_claimable : OutboxEvent → Bool
is_claimable e = is_none e.published_at && is_pending e.status

-- `id IN ?`.
abbrev pub id_in : List OutboxEvent → Uuid → Bool
id_in [] id = false
id_in (e ∷ es) id = e.id == id || id_in es id

abbrev pub claim_row : OutboxEvent → OutboxEvent
claim_row e = record e { status = OutboxStatus.processing; last_error = none }

-- The rows that `SELECT … ORDER BY created_at LIMIT ?` returns.
unfoldable pub pending_batch : ℕ → List OutboxEvent → List OutboxEvent
pending_batch limit rows = take limit (order_by (λ e. e.created_at) (select is_claimable rows))

-- `ClaimPendingBatch`: the events as they were read, and the table with them marked.
unfoldable pub claim_pending_batch : ℕ → List OutboxEvent → List OutboxEvent × List OutboxEvent
claim_pending_batch limit rows =
    let events = pending_batch limit rows in
    (events, update_where (λ e. id_in events e.id) claim_row rows)

unfoldable pub create_event : OutboxEvent → List OutboxEvent → List OutboxEvent
create_event e rows = rows ++ e ∷ []

unfoldable pub mark_published : Time → Uuid → List OutboxEvent → List OutboxEvent
mark_published now id =
    update_where (λ e. e.id == id)
      λ e. record e { status = OutboxStatus.published; published_at = some now }

unfoldable pub increment_retry : Uuid → String → List OutboxEvent → List OutboxEvent
increment_retry id message =
    update_where (λ e. e.id == id)
      λ e. record e {
        status = OutboxStatus.pending;
        retry_count = e.retry_count + 1;
        last_error = some message;
      }

unfoldable pub mark_failed : Uuid → String → List OutboxEvent → List OutboxEvent
mark_failed id message =
    update_where (λ e. e.id == id)
      λ e. record e { status = OutboxStatus.failed; last_error = some message }
