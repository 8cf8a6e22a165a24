-- ===== src/Notification/Campaign/Examples.antt =====
-- The dispatch of a campaign at concrete inputs.
use microservices_base_platf.Prelude.{
  ◌≡◌, refl, String, false, none, some, List, [], ◌∷◌, map, ◌==◌, if◌then◌else◌, Distinct, arith,
}
use mathlib.Core.List.{Sublist}
use microservices_base_platf.Notification.Domain.{Campaign, CampaignStatus}
use microservices_base_platf.Notification.Campaign.Dispatch.{
  World, Config, Answers, Publication, queue_full, publication, dispatch_users, dispatch_campaign,
}
use microservices_base_platf.Notification.Campaign.Reaches.{
  IsDispatched, received, dispatch_campaign-IsDispatched, dispatch_users_complete,
}
use microservices_base_platf.Identity.Users.{Uuid, User, list_users}
use microservices_base_platf.Identity.Stream
use microservices_base_platf.Identity.Stream.{UserRecord, record_of, StreamError, stream_users}
use microservices_base_platf.Identity.Stream.Complete.{id_of}

abbrev spring : Campaign
spring = record {
  id = 9;
  title = "Spring";
  subject = "Spring";
  content = "Come";
  channel = "email";
  event_type = "promotion_campaign";
  target_audience = "user";
  filter_criteria = "";
  status = CampaignStatus.dispatching;
  scheduled_at = 10;
  deleted_at = none;
  total_recipients = 0;
  last_dispatched_cursor = some 1;
  dispatched_count = 1;
  sent_count = 0;
  failed_count = 0;
}

abbrev config : Config
config = record { exchange = "notification"; campaign_batch_size = 2 }

-- The queue is full at the second publication.
abbrev answers : Answers
answers = record {
  now = 100;
  claim = none;
  count_users = some 3;
  set_total = none;
  publish = λ n. if n == 1 then some queue_full else none;
  cancelled_in_backoff = λ n. false;
  cancelled_at = λ u. false;
  checkpoint = λ k. none;
  mark = none;
}

abbrev world : World
world = record { campaigns = spring ∷ []; published = []; attempts = 0 }

abbrev user : Uuid → User
user id = record {
  id = id;
  email = "a@b.c";
  role = "user";
  password_hash = "";
  name = "A";
  deleted_at = none;
}

abbrev rows : List User
rows = user 4 ∷ user 2 ∷ user 1 ∷ user 3 ∷ []

abbrev text_of : Uuid → String
text_of id = if id == 9 then "nine" else "user"

dispatch_campaign-IsDispatched_example :
    IsDispatched text_of config answers spring world 3
      (map record_of rows)
      (dispatch_campaign text_of config answers spring (map record_of rows, none) world)
dispatch_campaign-IsDispatched_example =
    dispatch_campaign-IsDispatched text_of config answers spring world 3 (map record_of rows) none
      refl refl refl (λ k. refl)

abbrev stream_answers : Stream.Answers
stream_answers = record { cancelled_at = λ n. false; list = λ n. none; send = λ id. none }

distinct : Distinct id_of rows
distinct = ground arith

no_error :
    (dispatch_users text_of config answers spring
      (received (λ e. "stream") (stream_users stream_answers "user" (some 1) 2 rows))
      world).1
    ≡ none
unfolding dispatch_users stream_users list_users
no_error = refl

dispatch_users_complete_example :
    (extra : List Publication) × ((dispatch_users text_of config answers spring
        (received (λ e. "stream") (stream_users stream_answers "user" (some 1) 2 rows))
        world).0.world.published
      ≡ extra)
    × Sublist
        (map
          (publication text_of config answers spring)
          (map record_of (user 2 ∷ user 3 ∷ user 4 ∷ [])))
        extra
dispatch_users_complete_example =
    dispatch_users_complete text_of config answers spring world stream_answers (λ e. "stream")
      "user" 2 rows distinct (λ k. refl) no_error
