-- ===== src/Notification/Campaign/Dispatch/Batches.antt =====
-- What the publication of a batch leaves at the broker, and how checkpoints add up.
use microservices_base_platf.Prelude.{
  ℕ, zero, suc, ◌+◌, ◌≡◌, refl, sym, ap, ◌∙◌, inl, inr, String, Option, none, some, List, [], ◌∷◌,
  ◌++◌, map, length, length-append, update_where, ◌==◌, Bool-cases, Option-cases, arith, last_of,
}
use mathlib.Core.List.{append-nil, append_assoc}
use mathlib.Core.List.Sublist
use mathlib.Core.List.{Sublist, sublist-append_right}
use microservices_base_platf.Notification.Domain.{Uuid, Campaign}
use microservices_base_platf.Notification.Campaign.Table.{advance, checkpoint_dispatch}
use microservices_base_platf.Notification.Campaign.Dispatch.{
  queue_full, context_cancelled, gave_up, failed, Publication, World, Config, Answers, Outcome,
  publication, send, try_publish_batch, after_attempt, publish_attempts,
}
use microservices_base_platf.Identity.Stream.{UserRecord}

-- What a publication adds: something, and at its end the whole batch if there was no error. The
-- table stays as it is.
pub record Published (batch : List Publication) (w : World) (r : Outcome) : Type 0 where
  pub extra : List Publication
  pub published : r.0.published ≡ w.published ++ extra
  pub covered : r.1 ≡ none → Sublist batch extra
  pub kept : r.0.campaigns ≡ w.campaigns

module _ (text_of : Uuid → String) (cfg : Config) (a : Answers) (c : Campaign) where
  try_publish_batch-Published :
      (us : List UserRecord) (w : World)
      → Published (map (publication text_of cfg a c) us) w (try_publish_batch text_of cfg a c us w)
  unfolding try_publish_batch
  try_publish_batch-Published [] w = record {
    extra = [];
    published = sym (append-nil w.published);
    covered = λ h. Sublist.refl [];
    kept = refl;
  }
  try_publish_batch-Published (u ∷ us) w =
      let pub_u = publication text_of cfg a c u in
      let ih = try_publish_batch-Published us (send text_of cfg a pub_u w) in
      elim (Option-cases (a.publish w.attempts)) [
        | inl e ↦
            rw (e, try_publish_batch)
              (record {
                extra = pub_u ∷ ih.extra;
                published = ih.published ∙ append_assoc w.published (pub_u ∷ []) ih.extra;
                covered = λ h. Sublist.cons-cons pub_u (ih.covered h);
                kept = ih.kept;
              })
        | inr (m, e) ↦
            rw (e, try_publish_batch)
              (record {
                extra = [];
                published = sym (append-nil w.published);
                covered = λ h. cc;
                kept = refl;
              })
      ]

  after_attempt-Published :
      (batch : List Publication) (w : World) (r : Outcome) (again : World → Outcome)
      → Published batch w r
      → ((w' : World) → Published batch w' (again w'))
      → Published batch w (after_attempt text_of cfg a r again)
  after_attempt-Published batch w (w', none) again p k = p
  after_attempt-Published batch w (w', some queue_full) again p k =
      elim (Bool-cases (a.cancelled_in_backoff w'.attempts)) [
        | inl e ↦
            rw e (record {
              extra = p.extra;
              published = p.published;
              covered = λ h. cc;
              kept = p.kept;
            })
        | inr e ↦
            let q = k w' in
            rw e (record {
              extra = p.extra ++ q.extra;
              published =
                  q.published
                  ∙ ap (λ t. t ++ q.extra) p.published
                  ∙ append_assoc w.published p.extra q.extra;
              covered = λ h. Sublist.trans (q.covered h) (sublist-append_right p.extra q.extra);
              kept = q.kept ∙ p.kept;
            })
      ]
  after_attempt-Published batch w (w', some context_cancelled) again p k = record {
    extra = p.extra;
    published = p.published;
    covered = λ h. cc;
    kept = p.kept;
  }
  after_attempt-Published batch w (w', some gave_up) again p k = record {
    extra = p.extra;
    published = p.published;
    covered = λ h. cc;
    kept = p.kept;
  }
  after_attempt-Published batch w (w', some (failed e)) again p k = record {
    extra = p.extra;
    published = p.published;
    covered = λ h. cc;
    kept = p.kept;
  }

  pub publish_attempts-Published :
      (n : ℕ) (us : List UserRecord) (w : World)
      → Published (map (publication text_of cfg a c) us) w (publish_attempts text_of cfg a n c us w)
  unfolding publish_attempts
  publish_attempts-Published zero us w = record {
    extra = [];
    published = sym (append-nil w.published);
    covered = λ h. cc;
    kept = refl;
  }
  publish_attempts-Published (suc n) us w =
      after_attempt-Published _ w _ _ (try_publish_batch-Published us w)
        (publish_attempts-Published n us)

-- The table once all these users are recorded, by one checkpoint or several.
abbrev pub recorded : Uuid → List UserRecord → List Campaign → List Campaign
recorded id [] rows = rows
recorded id (u ∷ us) rows =
    update_where (λ c. c.id == id) (advance (some (last_of u us).id) (length (u ∷ us))) rows

last_of-append :
    (u v : UserRecord) (us vs : List UserRecord) → last_of u (us ++ v ∷ vs) ≡ last_of v vs
last_of-append u v [] vs = refl
last_of-append u v (x ∷ us) vs = last_of-append x v us vs

advance_twice :
    (id : Uuid) (k k' : Option Uuid) (n m s : ℕ) (rows : List Campaign)
    → n + m ≡ s
    → update_where
        (λ c. c.id == id)
        (advance k' m)
        (update_where (λ c. c.id == id) (advance k n) rows)
      ≡ update_where (λ c. c.id == id) (advance k' s) rows
advance_twice id k k' n m s [] e = refl
advance_twice id k k' n m s (c ∷ rows) e = ground (arith, advance_twice id k k' n m s rows e)

-- One more checkpoint.
pub recorded-append :
    (id : Uuid) (us : List UserRecord) (v : UserRecord) (vs : List UserRecord)
    (rows : List Campaign)
    → checkpoint_dispatch id (some (last_of v vs).id) (length (v ∷ vs)) (recorded id us rows)
      ≡ recorded id (us ++ v ∷ vs) rows
unfolding checkpoint_dispatch
recorded-append id [] v vs rows = refl
recorded-append id (u ∷ us) v vs rows = rw (last_of-append u v us vs) (
    advance_twice id _ _ (length (u ∷ us)) (length (v ∷ vs)) (length (u ∷ us ++ v ∷ vs)) rows
      (sym (length-append (u ∷ us) (v ∷ vs))))
