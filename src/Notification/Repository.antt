-- ===== src/Notification/Repository.antt =====
-- services/notification/internal/repository: what each statement does to the rows of its table,
-- kept in insertion order. Whether the database carries a statement out is decided by its caller.
use microservices_base_platf.Prelude.{
  ℕ, ◌+◌, String, Option, none, some, List, [], ◌∷◌, ◌++◌, update_where, ◌==◌, if◌then◌else◌,
  str_eq,
}
use microservices_base_platf.Notification.Domain.{
  Uuid, Time, Notification, NotificationStatus, Campaign, CampaignRecipient,
}

-- `""` leaves the column NULL.
abbrev pub text_or_null : String → Option String
text_or_null s = if str_eq s "" then none else some s

abbrev pub or_keep : Option ℕ → ℕ → ℕ
or_keep none old = old
or_keep (some new) old = new

-- `UpdateDeliveryStatus` writes `error_message` and `sent_at` in any case, `retry_count` if given.
unfoldable pub update_delivery_status :
    Time
    → Uuid
    → NotificationStatus
    → String
    → Option Time
    → Option ℕ
    → List Notification
    → List Notification
update_delivery_status now id status error_message sent_at retry_count =
    update_where (λ n. n.id == id)
      λ n. record n {
        status = status;
        updated_at = now;
        error_message = text_or_null error_message;
        sent_at = sent_at;
        retry_count = or_keep retry_count n.retry_count;
      }

unfoldable pub create_notification : Notification → List Notification → List Notification
create_notification n rows = rows ++ n ∷ []

unfoldable pub create_recipient :
    CampaignRecipient → List CampaignRecipient → List CampaignRecipient
create_recipient r rows = rows ++ r ∷ []

-- The two fields that `IncrementCampaignCounter` takes; it refuses any other.
pub data CounterField : Type 0 where
  sent_count failed_count : CounterField

abbrev pub bump : CounterField → Campaign → Campaign
bump CounterField.sent_count c = record c { sent_count = c.sent_count + 1 }
bump CounterField.failed_count c = record c { failed_count = c.failed_count + 1 }

unfoldable pub increment_campaign_counter : Uuid → CounterField → List Campaign → List Campaign
increment_campaign_counter id field = update_where (λ c. c.id == id) (bump field)
