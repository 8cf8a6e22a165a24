-- ===== src/Notification/Campaign/Dispatch.antt =====
-- services/notification/internal/worker/campaign_worker.go: the dispatch of one campaign. What the
-- broker, the database and the contexts answer is an argument: the broker for its n-th publication,
-- the database for each checkpoint.
pub mod Batches
pub mod Covers
use microservices_base_platf.Prelude.{
  ℕ, zero, suc, ◌+◌, String, Bool, true, false, Option, none, some, List, [], ◌∷◌, ◌++◌, length,
  ltb, ◌==◌, if◌then◌else◌,
}
use microservices_base_platf.Notification.Domain.{
  Uuid, Time, Campaign, CampaignStatus, CampaignTask,
}
use microservices_base_platf.Notification.Campaign.Table.{
  claim_pending_campaign, set_total_recipients, checkpoint_dispatch, mark_campaign_status,
}
use microservices_base_platf.Identity.Stream.{UserRecord}

-- The errors of a dispatch; `context_cancelled` is `context.Canceled`.
pub data DispatchError : Type 0 where
  queue_full context_cancelled gave_up : DispatchError
  failed : String → DispatchError

-- A task that the broker took.
pub record Publication : Type 0 where
  pub exchange : String
  pub routing_key : String
  pub task : CampaignTask

pub record World : Type 0 where
  pub campaigns : List Campaign
  pub published : List Publication
  pub attempts : ℕ

pub record Config : Type 0 where
  pub exchange : String
  pub campaign_batch_size : ℕ

pub record Answers : Type 0 where
  pub now : Time
  pub claim : Option String
  pub count_users : Option ℕ
  pub set_total : Option String
  pub publish : ℕ → Option DispatchError
  pub cancelled_in_backoff : ℕ → Bool
  pub cancelled_at : Uuid → Bool
  pub checkpoint : Option Uuid → Option String
  pub mark : Option String

abbrev pub campaign_email_routing_key : String
campaign_email_routing_key = "campaign.email"

abbrev pub max_publish_retries : ℕ
max_publish_retries = 5

-- A batch size that is not positive is given as 0.
abbrev pub batch_size_of : Config → ℕ
batch_size_of cfg = if cfg.campaign_batch_size == 0 then 1000 else cfg.campaign_batch_size

abbrev pub on_success {ℓ} : {A : Type ℓ} → Option String → A → A → A
on_success none done undone = done
on_success (some e) done undone = undone

-- The users and how their stream ended.
abbrev pub UserStream : Type 0
UserStream = List UserRecord × Option DispatchError

abbrev pub Outcome : Type 0
Outcome = World × Option DispatchError

-- The variables that the stream's callback shares with the dispatch.
pub record Progress : Type 0 where
  pub world : World
  pub batch : List UserRecord
  pub cursor : Option Uuid

-- The text of an id is a parameter.
module _ (text_of : Uuid → String) (cfg : Config) (a : Answers) where
  abbrev pub publication : Campaign → UserRecord → Publication
  publication c u = record {
    exchange = cfg.exchange;
    routing_key = campaign_email_routing_key;
    task = record {
      campaign_id = text_of c.id;
      user_id = text_of u.id;
      event_type = c.event_type;
      recipient = u.email;
      channel = c.channel;
      subject = c.subject;
      content = c.content;
    };
  }

  abbrev pub tried : World → World
  tried w = record w { attempts = suc w.attempts }

  abbrev pub send : Publication → World → World
  send p w = record w { attempts = suc w.attempts; published = w.published ++ p ∷ [] }

  pub try_publish_batch : Campaign → List UserRecord → World → Outcome
  try_publish_batch c [] w = (w, none)
  try_publish_batch c (u ∷ us) w = elim (a.publish w.attempts) [
    | none ↦ try_publish_batch c us (send (publication c u) w)
    | some e ↦ (tried w, some e)
  ]

  -- What follows an attempt: only a full queue leads to another one, if the wait is not cancelled.
  abbrev pub after_attempt : Outcome → (World → Outcome) → Outcome
  after_attempt (w, none) again = (w, none)
  after_attempt (w, some queue_full) again =
      if a.cancelled_in_backoff w.attempts then (w, some context_cancelled) else again w
  after_attempt (w, some context_cancelled) again = (w, some context_cancelled)
  after_attempt (w, some gave_up) again = (w, some gave_up)
  after_attempt (w, some (failed e)) again = (w, some (failed e))

  -- The loop of `publishBatch`, by the attempts that are left.
  pub publish_attempts : ℕ → Campaign → List UserRecord → World → Outcome
  publish_attempts zero c us w = (w, some gave_up)
  publish_attempts (suc n) c us w =
      after_attempt (try_publish_batch c us w) (λ w'. publish_attempts n c us w')

  abbrev pub publish_batch : Campaign → List UserRecord → World → Outcome
  publish_batch = publish_attempts max_publish_retries

  abbrev pub checkpoint : Campaign → Option Uuid → ℕ → World → World
  checkpoint c cursor size w = record w {
    campaigns =
        on_success (a.checkpoint cursor) (checkpoint_dispatch c.id cursor size w.campaigns)
          w.campaigns;
  }

  abbrev pub flushed : Campaign → Progress → Outcome → Progress × Option DispatchError
  flushed c p (w, none) =
      (record p { world = checkpoint c p.cursor (length p.batch) w; batch = [] }, none)
  flushed c p (w, some e) = (record p { world = w }, some e)

  abbrev pub flush : Campaign → Progress → Progress × Option DispatchError
  flush c p = flushed c p (publish_batch c p.batch p.world)

  abbrev pub add_user : UserRecord → Progress → Progress
  add_user u p = record p { batch = p.batch ++ u ∷ []; cursor = some u.id }

  -- The callback.
  pub on_user : Campaign → UserRecord → Progress → Progress × Option DispatchError
  on_user c u p = elim (a.cancelled_at u.id) [
    | true ↦ (p, some context_cancelled)
    | false ↦
        if ltb (length (add_user u p).batch) (batch_size_of cfg)
        then (add_user u p, none)
        else flush c (add_user u p)
  ]

  -- `StreamUsers` of the client: the callback for each user, until it returns an error.
  pub receive_users :
      Campaign → List UserRecord → Option DispatchError → Progress → Progress × Option DispatchError
  receive_users c [] end p = (p, end)
  receive_users c (u ∷ us) end p =
      let (p', e) = on_user c u p in
      elim e [ none ↦ receive_users c us end p' | some error ↦ (p', some error) ]

  abbrev pub flush_rest :
      Campaign → Progress × Option DispatchError → Progress × Option DispatchError
  flush_rest c (p, some e) = (p, some e)
  flush_rest c (p, none) = elim p.batch [ [] ↦ (p, none) | u ∷ us ↦ flush c p ]

  abbrev pub start_progress : Campaign → World → Progress
  start_progress c w = record { world = w; batch = []; cursor = c.last_dispatched_cursor }

  -- The users of the stream, and the last batch.
  unfoldable pub dispatch_users : Campaign → UserStream → World → Progress × Option DispatchError
  unfolding on_user receive_users publish_attempts try_publish_batch
  dispatch_users c (us, end) w = flush_rest c (receive_users c us end (start_progress c w))

  abbrev pub mark : Campaign → CampaignStatus → World → World
  mark c status w = record w {
    campaigns = on_success a.mark (mark_campaign_status c.id status w.campaigns) w.campaigns;
  }

  -- The status at the end: a dispatch that was cancelled is left as it is.
  abbrev pub conclude : Campaign → Progress × Option DispatchError → Outcome
  conclude c (p, none) = (mark c CampaignStatus.completed p.world, none)
  conclude c (p, some context_cancelled) = (p.world, some context_cancelled)
  conclude c (p, some queue_full) = (mark c CampaignStatus.failed p.world, some queue_full)
  conclude c (p, some gave_up) = (mark c CampaignStatus.failed p.world, some gave_up)
  conclude c (p, some (failed e)) = (mark c CampaignStatus.failed p.world, some (failed e))

  -- `dispatchCampaign`; without a count the stream is not opened.
  abbrev pub dispatch_counted : Option ℕ → Campaign → UserStream → World → Outcome
  dispatch_counted none c stream w =
      (mark c CampaignStatus.failed w, some (failed "failed to count users"))
  dispatch_counted (some total) c stream w = conclude c (
      dispatch_users c stream (record w {
        campaigns =
            on_success a.set_total (set_total_recipients c.id total w.campaigns) w.campaigns;
      }))

  unfoldable pub dispatch_campaign : Campaign → UserStream → World → Outcome
  dispatch_campaign c stream w = dispatch_counted a.count_users c stream w

  abbrev pub dispatch_claimed :
      (Campaign → UserStream) → Option Campaign × List Campaign → World → World
  dispatch_claimed stream_of (none, rows) w = w
  dispatch_claimed stream_of (some c, rows) w =
      (dispatch_campaign c (stream_of c) (record w { campaigns = rows })).0

  -- `dispatchPendingCampaigns`; the users are those of the campaign's filter.
  unfoldable pub dispatch_pending_campaigns : (Campaign → UserStream) → World → World
  unfolding dispatch_campaign
  dispatch_pending_campaigns stream_of w = elim a.claim [
    | none ↦ dispatch_claimed stream_of (claim_pending_campaign a.now w.campaigns) w
    | some e ↦ w
  ]
