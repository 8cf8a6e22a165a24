-- ===== src/Notification/Dlq/Listing.antt =====
-- services/notification/internal/service/dlq_service.go, `ListDLQMessages`, and `List` of
-- repository/dlq_repository.go. The response copies the rows, which are kept in the order in which
-- they were inserted, so that the newest come first in the reverse order.
use microservices_base_platf.Prelude.{
  ℕ, String, Bool, ◌||◌, Option, none, some, ◌⊎◌, inl, inr, List, select, length, str_eq,
  offset_page,
}
use mathlib.Core.List.{reverse}
use microservices_base_platf.Notification.Domain.{DlqMessage, DlqStatus}

abbrev pub status_text : DlqStatus → String
status_text DlqStatus.pending = "pending"
status_text DlqStatus.replayed = "replayed"
status_text DlqStatus.ignored = "ignored"

-- `status = ?`, unless it is empty.
abbrev pub has_status : String → DlqMessage → Bool
has_status status m = str_eq status "" || str_eq (status_text m.status) status

-- The newest first, by `created_at DESC`.
abbrev pub newest_first : String → List DlqMessage → List DlqMessage
newest_first status rows = reverse (select (has_status status) rows)

-- `ListDLQMessages`: a page, counted from 1, and the number of all messages with the status, or the
-- error of one of the two queries.
unfoldable pub list_dlq_messages :
    Option String
    → Option String
    → String
    → ℕ
    → ℕ
    → List DlqMessage
    → String ⊎ (List DlqMessage × ℕ)
list_dlq_messages (some e) o status page limit rows = inl e
list_dlq_messages none (some e) status page limit rows = inl e
list_dlq_messages none none status page limit rows =
    inr
      (offset_page page limit (newest_first status rows), length (select (has_status status) rows))
