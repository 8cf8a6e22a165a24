-- ===== src/Notification/Campaign/Table.antt =====
-- services/notification/internal/repository/campaign_repository.go: the statements of the dispatcher
-- on the table `campaigns`.
use microservices_base_platf.Prelude.{
  ℕ, ◌+◌, ◌-◌, Bool, true, false, ◌&&◌, Option, none, some, List, [], ◌∷◌, ◌++◌, select, first,
  update_where, order_by, leb, ◌==◌, is_none,
}
use microservices_base_platf.Notification.Domain.{Uuid, Time, Campaign, CampaignStatus}

abbrev pub is_pending : CampaignStatus → Bool
is_pending CampaignStatus.pending = true
is_pending CampaignStatus.dispatching = false
is_pending CampaignStatus.completed = false
is_pending CampaignStatus.failed = false

-- `status = 'pending' AND scheduled_at <= NOW() AND deleted_at IS NULL`.
abbrev pub is_ready : Time → Campaign → Bool
is_ready now c = is_pending c.status && leb c.scheduled_at now && is_none c.deleted_at

abbrev pub set_status : CampaignStatus → Campaign → Campaign
set_status status c = record c { status = status }

unfoldable pub mark_campaign_status : Uuid → CampaignStatus → List Campaign → List Campaign
mark_campaign_status id status = update_where (λ c. c.id == id) (set_status status)

-- The first row of `ORDER BY scheduled_at ASC`.
abbrev pub head_row : List Campaign → Option Campaign
head_row [] = none
head_row (c ∷ cs) = some c

abbrev pub claimed : Option Campaign → List Campaign → Option Campaign × List Campaign
claimed none rows = (none, rows)
claimed (some c) rows = (
  some (set_status CampaignStatus.dispatching c),
  mark_campaign_status c.id CampaignStatus.dispatching rows,
)

-- `ClaimPendingCampaign`: the campaign, if one is ready, and the table with its row marked.
unfoldable pub claim_pending_campaign : Time → List Campaign → Option Campaign × List Campaign
unfolding mark_campaign_status
claim_pending_campaign now rows =
    claimed (head_row (order_by (λ c. c.scheduled_at) (select (is_ready now) rows))) rows

unfoldable pub set_total_recipients : Uuid → ℕ → List Campaign → List Campaign
set_total_recipients id count =
    update_where (λ c. c.id == id) λ c. record c { total_recipients = count }

abbrev pub advance : Option Uuid → ℕ → Campaign → Campaign
advance cursor size c = record c {
  last_dispatched_cursor = cursor;
  dispatched_count = c.dispatched_count + size;
}

unfoldable pub checkpoint_dispatch : Uuid → Option Uuid → ℕ → List Campaign → List Campaign
checkpoint_dispatch id cursor size = update_where (λ c. c.id == id) (advance cursor size)

abbrev pub create_campaign : Campaign → List Campaign → List Campaign
create_campaign c rows = rows ++ c ∷ []

abbrev pub get_campaign_by_id : Uuid → List Campaign → Option Campaign
get_campaign_by_id id = first (λ c. c.id == id)

-- `GetCampaignStats`.
pub record CampaignStats : Type 0 where
  pub total_recipients : ℕ
  pub last_dispatched_cursor : Option Uuid
  pub dispatched_count : ℕ
  pub sent_count : ℕ
  pub failed_count : ℕ
  pub pending_count : ℕ

-- The subtraction on integers, where the code replaces a negative result by 0.
unfoldable pub campaign_stats : Campaign → CampaignStats
campaign_stats c = record {
  total_recipients = c.total_recipients;
  last_dispatched_cursor = c.last_dispatched_cursor;
  dispatched_count = c.dispatched_count;
  sent_count = c.sent_count;
  failed_count = c.failed_count;
  pending_count = c.total_recipients - c.sent_count - c.failed_count;
}
