-- ===== src/Notification/Campaign/Reaches.antt =====
-- A dispatch from end to end: with the row of its campaign, and with the stream of users that the
-- identity service sends.
use microservices_base_platf.Prelude.{
  ℕ, ◌≡◌, refl, sym, ap, ◌∙◌, ◌≢◌, ◌⊎◌, inl, inr, String, Option, none, some, List, [], ◌++◌, map,
  Distinct,
}
use mathlib.Core.List.{append-nil}
use mathlib.Core.List.{Sublist}
use microservices_base_platf.Notification.Domain.{Uuid, Campaign, CampaignStatus}
use microservices_base_platf.Notification.Campaign.Table.{
  set_total_recipients, mark_campaign_status,
}
use microservices_base_platf.Notification.Campaign.Dispatch.{
  DispatchError, queue_full, context_cancelled, gave_up, failed, Publication, World, Config,
  Answers, UserStream, Outcome, Progress, publication, dispatch_users, conclude, dispatch_campaign,
  dispatch_counted, on_success,
}
use microservices_base_platf.Notification.Campaign.Dispatch.Batches.{recorded}
use microservices_base_platf.Notification.Campaign.Dispatch.Covers.{Ends, dispatch_users-Ends}
use microservices_base_platf.Identity.Users.{User, users_behind}
use microservices_base_platf.Identity.Stream
use microservices_base_platf.Identity.Stream.{
  UserRecord, record_of, Streamed, StreamError, stream_users,
}
use microservices_base_platf.Identity.Stream.Complete.{id_of, IsPart, stream_users-IsPart}

-- The status that a dispatch leaves on the row.
abbrev pub with_status : Uuid → Option DispatchError → List Campaign → List Campaign
with_status id none = mark_campaign_status id CampaignStatus.completed
with_status id (some context_cancelled) = λ rows. rows
with_status id (some queue_full) = mark_campaign_status id CampaignStatus.failed
with_status id (some gave_up) = mark_campaign_status id CampaignStatus.failed
with_status id (some (failed e)) = mark_campaign_status id CampaignStatus.failed

module _ (text_of : Uuid → String) (cfg : Config) (a : Answers) (c : Campaign) (w : World) where
  -- The users `sent` are published in order, maybe among repetitions, and recorded on the row.
  pub record IsDispatched (total : ℕ) (us : List UserRecord) (r : Outcome) : Type 0 where
    pub sent : List UserRecord
    pub left : List UserRecord
    pub split : sent ++ left ≡ us
    pub extra : List Publication
    pub published : r.0.published ≡ w.published ++ extra
    pub covered : Sublist (map (publication text_of cfg a c) sent) extra
    pub row :
        r.0.campaigns
        ≡ with_status c.id r.1 (recorded c.id sent (set_total_recipients c.id total w.campaigns))
    pub ended : ((r.1 ≡ none) × (left ≡ [])) ⊎ (r.1 ≢ none)

  -- The end of a dispatch publishes nothing more, and sets the status of the row.
  closed :
      (total : ℕ) (us : List UserRecord) (w' : World) (r : Outcome)
      → Ends text_of cfg a c
          (record w { campaigns = set_total_recipients c.id total w.campaigns })
          us
          w'
          r.1
      → r.0.published ≡ w'.published
      → r.0.campaigns ≡ with_status c.id r.1 w'.campaigns
      → IsDispatched total us r
  closed total us w' r d kept row = record {
    sent = d.sent;
    left = d.left;
    split = d.split;
    extra = d.flushed_sent.extra;
    published = kept ∙ d.flushed_sent.published;
    covered = d.flushed_sent.covered;
    row = row ∙ ap (with_status c.id r.1) d.flushed_sent.row;
    ended = d.ended;
  }

  conclude-IsDispatched :
      (total : ℕ) (us : List UserRecord) (p : Progress) (e : Option DispatchError)
      → a.mark ≡ none
      → Ends text_of cfg a c
          (record w { campaigns = set_total_recipients c.id total w.campaigns })
          us
          p.world
          e
      → IsDispatched total us (conclude text_of cfg a c (p, e))
  conclude-IsDispatched total us p none m d = closed total us p.world _ d refl (rw m refl)
  conclude-IsDispatched total us p (some context_cancelled) m d =
      closed total us p.world _ d refl refl
  conclude-IsDispatched total us p (some queue_full) m d =
      closed total us p.world _ d refl (rw m refl)
  conclude-IsDispatched total us p (some gave_up) m d = closed total us p.world _ d refl (rw m refl)
  conclude-IsDispatched total us p (some (failed e)) m d =
      closed total us p.world _ d refl (rw m refl)

  -- A dispatch whose users are counted.
  counted :
      (total : ℕ) (stream : UserStream)
      → a.count_users ≡ some total
      → a.set_total ≡ none
      → dispatch_campaign text_of cfg a c stream w
        ≡ conclude text_of cfg a c (
            dispatch_users text_of cfg a c stream
              (record w { campaigns = set_total_recipients c.id total w.campaigns }))
  unfolding dispatch_campaign
  counted total stream n t =
      ap (λ o. dispatch_counted text_of cfg a o c stream w) n
      ∙ ap
          (λ o. conclude text_of cfg a c (
            dispatch_users text_of cfg a c stream (record w {
              campaigns = on_success o (set_total_recipients c.id total w.campaigns) w.campaigns;
            })))
          t

  -- If the users are counted and the statements on the campaign's row are carried out, a dispatch
  -- has published some of the users at the front of its stream, each and in order, and the row
  -- holds the number of all users, how many were published, the cursor of the last one of these,
  -- and the status that the end of the dispatch calls for; without an error these users are all of
  -- the stream. So a dispatch that goes on behind the recorded cursor passes over nobody.
  pub dispatch_campaign-IsDispatched :
      (total : ℕ) (us : List UserRecord) (end : Option DispatchError)
      → a.count_users ≡ some total
      → a.set_total ≡ none
      → a.mark ≡ none
      → ((k : Option Uuid) → a.checkpoint k ≡ none)
      → IsDispatched total us (dispatch_campaign text_of cfg a c (us, end) w)
  dispatch_campaign-IsDispatched total us end n t m saved =
      let w' : World = record w { campaigns = set_total_recipients c.id total w.campaigns } in
      let r = dispatch_users text_of cfg a c (us, end) w' in
      rw (counted total (us, end) n t) (
        conclude-IsDispatched total us r.0 r.1 m
          (dispatch_users-Ends text_of cfg a c w' saved us end).0)

-- How `StreamUsers` of the identity client ends: the server's error becomes one of its own.
abbrev pub received : (StreamError → String) → Streamed → UserStream
received message (us, none) = (us, none)
received message (us, some e) = (us, some (failed (message e)))

module _ (text_of : Uuid → String) (cfg : Config) (a : Answers) (c : Campaign) (w : World)
    (ia : Stream.Answers) (message : StreamError → String) (role : String) (size : ℕ)
    (rows : List User) where
  -- A stream without an error has sent all users.
  received-all :
      (all : List UserRecord) (r : Streamed)
      → IsPart ia all r
      → (received message r).1 ≡ none
      → (received message r).0 ≡ all
  received-all all (us, none) p h = elim p.ended [
    | inl (n, e) ↦ sym (append-nil us) ∙ ap (◌++◌ us) (sym e) ∙ p.sent
    | inr caused ↦ absurd caused
  ]
  received-all all (us, some e) p h = cc

  -- A dispatch that returns no error, from a stream of the identity service, has published a
  -- message to every user of the role behind the cursor of its campaign, in the order of their
  -- ids, whatever batches and repetitions they went out in, if the ids of the users are unique and
  -- the checkpoints are saved. (The stream's own errors are errors of the dispatch.)
  pub dispatch_users_complete :
      Distinct id_of rows
      → ((k : Option Uuid) → a.checkpoint k ≡ none)
      → let r =
          dispatch_users text_of cfg a c
            (received message (stream_users ia role c.last_dispatched_cursor size rows))
            w in
        r.1 ≡ none
        → (extra : List Publication) × (r.0.world.published ≡ w.published ++ extra)
          × Sublist
              (map
                (publication text_of cfg a c)
                (map record_of (users_behind role c.last_dispatched_cursor rows)))
              extra
  dispatch_users_complete d saved h =
      let s = stream_users ia role c.last_dispatched_cursor size rows in
      let us = received message s in
      let (ends, well) = dispatch_users-Ends text_of cfg a c w saved us.0 us.1 in
      elim well [
        | inl n ↦ absurd (n h)
        | inr e ↦ elim ends.ended [
          | inl (n, left) ↦
              let sent : ends.sent
                  ≡ map record_of (users_behind role c.last_dispatched_cursor rows) =
                sym (append-nil ends.sent)
                ∙ ap (◌++◌ ends.sent) (sym left)
                ∙ ends.split
                ∙ received-all _ s
                    (stream_users-IsPart ia role c.last_dispatched_cursor size rows d) e in
              let f = ends.flushed_sent in (f.extra, f.published, rw sent at f.covered)
          | inr n ↦ absurd (n h)
        ]
      ]
