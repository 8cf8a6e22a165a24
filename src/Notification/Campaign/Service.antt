-- ===== src/Notification/Campaign/Service.antt =====
-- services/notification/internal/service/campaign_service.go and its statements in
-- repository/campaign_repository.go: creating a campaign, and how far it has come. The encoder of a
-- filter, the parser of ids and the floating-point percentage are parameters.
use microservices_base_platf.Prelude.{
  ℕ, ◌+◌, String, Bool, true, false, Option, none, some, ◌⊎◌, inl, inr, List, ltb, str_eq,
  if◌then◌else◌,
}
use microservices_base_platf.Notification.Domain.{
  Uuid, Time, EventType, NotificationChannel, Campaign, CampaignStatus,
}
use microservices_base_platf.Notification.Campaign.Table.{
  create_campaign, get_campaign_by_id, CampaignStats, campaign_stats,
}

-- `dto.CreateCampaignRequest`.
pub record CreateCampaignRequest (Filter : Type 0) : Type 0 where
  pub title : String
  pub subject : String
  pub content : String
  pub channel : NotificationChannel
  pub event_type : EventType
  pub scheduled_at : Time
  pub target_audience : String
  pub filter : Filter

-- `dto.CreateCampaignResponse`.
pub record CreateCampaignResponse : Type 0 where
  pub campaign_id : Uuid
  pub total_recipients : ℕ
  pub scheduled_at : Time
  pub message : String

pub data CampaignError : Type 0 where
  not_in_future invalid_filter invalid_campaign_id not_found : CampaignError
  statement_failed : String → CampaignError

pub record CreateAnswers : Type 0 where
  pub now : Time
  pub new_id : Uuid
  pub create : Option String

abbrev pub or_all_users : String → String
or_all_users audience = if str_eq audience "" then "all_users" else audience

abbrev pub Created : Type 0
Created = (CampaignError ⊎ CreateCampaignResponse) × List Campaign

abbrev pub response_of : Campaign → CreateCampaignResponse
response_of c = record {
  campaign_id = c.id;
  total_recipients = 0;
  scheduled_at = c.scheduled_at;
  message = "campaign created successfully";
}

-- `CreateCampaign` of the repository, if it is carried out.
abbrev pub insert_campaign : Option String → Campaign → List Campaign → Created
insert_campaign (some e) c rows = (inl (statement_failed e), rows)
insert_campaign none c rows = (inr (response_of c), create_campaign c rows)

module _ {Filter : Type 0} (marshal : Filter → Option String) where
  abbrev pub new_campaign : CreateAnswers → CreateCampaignRequest Filter → String → Campaign
  new_campaign a req filter = record {
    id = a.new_id;
    title = req.title;
    subject = req.subject;
    content = req.content;
    channel = req.channel;
    event_type = req.event_type;
    target_audience = or_all_users req.target_audience;
    filter_criteria = filter;
    status = CampaignStatus.pending;
    scheduled_at = req.scheduled_at;
    deleted_at = none;
    total_recipients = 0;
    last_dispatched_cursor = none;
    dispatched_count = 0;
    sent_count = 0;
    failed_count = 0;
  }

  abbrev pub create_filtered :
      CreateAnswers → CreateCampaignRequest Filter → Option String → List Campaign → Created
  create_filtered a req none rows = (inl invalid_filter, rows)
  create_filtered a req (some filter) rows =
      insert_campaign a.create (new_campaign a req filter) rows

  abbrev pub create_if :
      Bool → CreateAnswers → CreateCampaignRequest Filter → List Campaign → Created
  create_if false a req rows = (inl not_in_future, rows)
  create_if true a req rows = create_filtered a req (marshal req.filter) rows

  -- `CreateCampaign`.
  unfoldable pub create : CreateAnswers → CreateCampaignRequest Filter → List Campaign → Created
  create a req rows = create_if (ltb a.now req.scheduled_at) a req rows

-- `dto.CampaignStatsResponse`.
pub record CampaignStatsResponse (Percent : Type 0) : Type 0 where
  pub campaign_id : Uuid
  pub status : CampaignStatus
  pub total_recipients : ℕ
  pub last_dispatched_cursor : Option Uuid
  pub dispatched_count : ℕ
  pub sent_count : ℕ
  pub failed_count : ℕ
  pub pending_count : ℕ
  pub progress_pct : Percent

abbrev pub found_or : Option Campaign → CampaignError ⊎ Campaign
found_or none = inl not_found
found_or (some c) = inr c

-- The row that both queries read.
abbrev pub read_campaign : Option String → Uuid → List Campaign → CampaignError ⊎ Campaign
read_campaign (some e) id rows = inl (statement_failed e)
read_campaign none id rows = found_or (get_campaign_by_id id rows)

abbrev pub stats_or : CampaignError ⊎ Campaign → CampaignError ⊎ CampaignStats
unfolding campaign_stats
stats_or (inl e) = inl e
stats_or (inr c) = inr (campaign_stats c)

module _ {Percent : Type 0} (percent : ℕ → ℕ → Percent) (zero_percent : Percent) where
  abbrev pub progress : CampaignStats → Percent
  progress s =
      if ltb 0 s.total_recipients
      then percent (s.sent_count + s.failed_count) s.total_recipients
      else zero_percent

  abbrev pub with_stats :
      Campaign → CampaignError ⊎ CampaignStats → CampaignError ⊎ CampaignStatsResponse Percent
  with_stats c (inl e) = inl e
  with_stats c (inr s) = inr (record {
    campaign_id = c.id;
    status = c.status;
    total_recipients = s.total_recipients;
    last_dispatched_cursor = s.last_dispatched_cursor;
    dispatched_count = s.dispatched_count;
    sent_count = s.sent_count;
    failed_count = s.failed_count;
    pending_count = s.pending_count;
    progress_pct = progress s;
  })

  abbrev pub stats_behind :
      Option String
      → List Campaign
      → CampaignError ⊎ Campaign
      → CampaignError ⊎ CampaignStatsResponse Percent
  stats_behind o rows (inl e) = inl e
  stats_behind o rows (inr c) = with_stats c (stats_or (read_campaign o c.id rows))

  -- `GetCampaignStats`, with the answers to its two queries.
  unfoldable pub get_campaign_stats :
      Option String
      → Option String
      → Option Uuid
      → List Campaign
      → CampaignError ⊎ CampaignStatsResponse Percent
  get_campaign_stats o o' none rows = inl invalid_campaign_id
  get_campaign_stats o o' (some id) rows = stats_behind o' rows (read_campaign o id rows)
