-- ===== src/Notification/Domain.antt =====
-- services/notification/internal/domain and internal/dto/worker.go: the rows of the notification
-- service and the messages of its queues. A time is a number of seconds, an id a number (0 is
-- `uuid.Nil`), a cursor an id or `none` for the empty text, and a Go string type that stays open is
-- a `String`.
use microservices_base_platf.Prelude.{ℕ, String, Bool, Option}
use microservices_base_platf.Platform.Text.{Bytes}

abbrev pub Uuid : Type 0
Uuid = ℕ

abbrev pub Time : Type 0
Time = ℕ

abbrev pub nil_uuid : Uuid
nil_uuid = 0

abbrev pub EventType : Type 0
EventType = String

abbrev pub NotificationChannel : Type 0
NotificationChannel = String

abbrev pub event_promotion : EventType
event_promotion = "promotion_campaign"

abbrev pub channel_email : NotificationChannel
channel_email = "email"

pub data NotificationStatus : Type 0 where
  pending processing sent delivering failed : NotificationStatus

pub record Notification : Type 0 where
  pub id : Uuid
  pub event_type : EventType
  pub user_id : String
  pub channel : NotificationChannel
  pub recipient : String
  pub subject : String
  pub content : String
  pub status : NotificationStatus
  pub retry_count : ℕ
  pub error_message : Option String
  pub metadata : String
  pub sent_at : Option Time
  pub created_at : Time
  pub updated_at : Time

pub record NotificationTemplate : Type 0 where
  pub event_type : EventType
  pub channel : NotificationChannel
  pub subject : String
  pub content : String

-- `dto.NotificationTask`; `data` holds the subject and the content.
pub record NotificationTask : Type 0 where
  pub notification_id : String
  pub user_id : String
  pub event_type : EventType
  pub recipient : String
  pub channel : NotificationChannel
  pub subject : String
  pub content : String
  pub retry_count : ℕ

-- `dto.CampaignTask`.
pub record CampaignTask : Type 0 where
  pub campaign_id : String
  pub user_id : String
  pub event_type : EventType
  pub recipient : String
  pub channel : NotificationChannel
  pub subject : String
  pub content : String

pub data OutboxStatus : Type 0 where
  pending processing published failed : OutboxStatus

pub record OutboxEvent : Type 0 where
  pub id : Uuid
  pub aggregate_id : Uuid
  pub aggregate_type : String
  pub event_type : String
  pub payload : NotificationTask
  pub routing_key : String
  pub status : OutboxStatus
  pub retry_count : ℕ
  pub last_error : Option String
  pub published_at : Option Time
  pub created_at : Time

pub data CampaignStatus : Type 0 where
  pending dispatching completed failed : CampaignStatus

pub data CampaignRecipientStatus : Type 0 where
  pending dispatched sent failed : CampaignRecipientStatus

pub record Campaign : Type 0 where
  pub id : Uuid
  pub title : String
  pub subject : String
  pub content : String
  pub channel : NotificationChannel
  pub event_type : EventType
  pub target_audience : String
  pub filter_criteria : String
  pub status : CampaignStatus
  pub scheduled_at : Time
  pub deleted_at : Option Time
  pub total_recipients : ℕ
  pub last_dispatched_cursor : Option Uuid
  pub dispatched_count : ℕ
  pub sent_count : ℕ
  pub failed_count : ℕ

pub record CampaignRecipient : Type 0 where
  pub campaign_id : Uuid
  pub user_id : String
  pub recipient : String
  pub status : CampaignRecipientStatus

pub data DlqStatus : Type 0 where
  pending replayed ignored : DlqStatus

pub record DlqMessage : Type 0 where
  pub id : Uuid
  pub notification_id : Option Uuid
  pub queue_name : String
  pub payload : String
  pub error_message : String
  pub status : DlqStatus

pub record NotificationPreference : Type 0 where
  pub id : Uuid
  pub updated_at : Time
  pub deleted_at : Option Time
  pub user_id : String
  pub event_type : EventType
  pub channel : NotificationChannel
  pub enabled : Bool

pub record UserNotificationSchedule : Type 0 where
  pub id : Uuid
  pub user_id : String
  pub event_type : EventType
  pub send_time : Bytes
  pub timezone : String
  pub enabled : Bool
  pub payload : String
  pub last_sent_at : Option Time
  pub created_at : Time
  pub updated_at : Time
