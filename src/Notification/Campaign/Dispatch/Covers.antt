-- ===== src/Notification/Campaign/Dispatch/Covers.antt =====
-- Which users a dispatch has published when it ends, and what the campaign's row says of them.
use microservices_base_platf.Prelude.{
  ◌≡◌, refl, sym, ap, ◌∙◌, ◌≢◌, ◌⊎◌, inl, inr, String, Option, none, some, List, [], ◌∷◌, ◌++◌, map,
  length, ltb, Bool-cases, Option-cases, last_of,
}
use mathlib.Core.List.{append-nil, append_assoc, map-append}
use mathlib.Core.List.Sublist
use mathlib.Core.List.{Sublist, sublist-append_left}
use microservices_base_platf.Notification.Domain.{Uuid, Campaign}
use microservices_base_platf.Notification.Campaign.Dispatch.{
  DispatchError, Publication, World, Config, Answers, Outcome, Progress, batch_size_of, publication,
  max_publish_retries, flushed, flush, add_user, on_user, receive_users, flush_rest, start_progress,
  dispatch_users,
}
use microservices_base_platf.Notification.Campaign.Dispatch.Batches.{
  Published, publish_attempts-Published, recorded, recorded-append,
}
use microservices_base_platf.Identity.Stream.{UserRecord}

module _ (text_of : Uuid → String) (cfg : Config) (a : Answers) (c : Campaign) (w : World) where
  -- The users `sent` have been published, in order, and the row of the campaign records them.
  pub record Flushed (sent : List UserRecord) (w' : World) : Type 0 where
    pub extra : List Publication
    pub published : w'.published ≡ w.published ++ extra
    pub covered : Sublist (map (publication text_of cfg a c) sent) extra
    pub row : w'.campaigns ≡ recorded c.id sent w.campaigns

  -- The cursor is that of the last user in the batch.
  abbrev IsCurrent : Progress → Type 0
  IsCurrent p =
      (p.batch ≡ [])
      ⊎ ((v : UserRecord) × (vs : List UserRecord) × (p.batch ≡ v ∷ vs)
          × (p.cursor ≡ some (last_of v vs).id))

  -- After the users `seen`, without an error.
  record IsAt (seen : List UserRecord) (p : Progress) : Type 0 where
    sent : List UserRecord
    flushed_sent : Flushed sent p.world
    split : sent ++ p.batch ≡ seen
    current : IsCurrent p

  -- After all users or some of them, with the error at the end.
  pub record Ends (all : List UserRecord) (w' : World) (e : Option DispatchError) : Type 0 where
    pub sent : List UserRecord
    pub left : List UserRecord
    pub flushed_sent : Flushed sent w'
    pub split : sent ++ left ≡ all
    pub ended : ((e ≡ none) × (left ≡ [])) ⊎ (e ≢ none)

  module _ (saved : (k : Option Uuid) → a.checkpoint k ≡ none) where
    grow :
        (sent : List UserRecord) (batch : List UserRecord) (p : Progress) (r : Outcome)
        → Flushed sent p.world
        → Published (map (publication text_of cfg a c) batch) p.world r
        → Flushed sent r.0
    grow sent batch p r f q = record {
      extra = f.extra ++ q.extra;
      published =
          q.published
          ∙ ap (λ t. t ++ q.extra) f.published
          ∙ append_assoc w.published f.extra q.extra;
      covered = Sublist.trans f.covered (sublist-append_left f.extra q.extra);
      row = q.kept ∙ f.row;
    }

    flushed-Ends :
        (p : Progress) (sent : List UserRecord) (v : UserRecord) (vs : List UserRecord)
        (r : Outcome)
        → Flushed sent p.world
        → p.batch ≡ v ∷ vs
        → p.cursor ≡ some (last_of v vs).id
        → Published (map (publication text_of cfg a c) p.batch) p.world r
        → let t = flushed text_of cfg a c p r in
          ((t.1 ≡ none) × (t.0.batch ≡ []) × Flushed (sent ++ p.batch) t.0.world)
          ⊎ ((t.1 ≢ none) × Flushed sent t.0.world)
    flushed-Ends p sent v vs (w', none) f b k q = inl (
      refl,
      refl,
      record {
        extra = f.extra ++ q.extra;
        published =
            q.published
            ∙ ap (λ t. t ++ q.extra) f.published
            ∙ append_assoc w.published f.extra q.extra;
        covered =
            rw (map-append (publication text_of cfg a c) sent p.batch)
              (Sublist.append f.covered (q.covered refl));
        row = rw (saved p.cursor, b, k, q.kept, f.row) (recorded-append c.id sent v vs w.campaigns);
      },
    )
    flushed-Ends p sent v vs (w', some e) f b k q =
        inr ((λ h. cc), grow sent p.batch p (w', some e) f q)

    add_last :
        (v : UserRecord) (vs : List UserRecord) (u : UserRecord) → last_of v (vs ++ u ∷ []) ≡ u
    add_last v [] u = refl
    add_last v (x ∷ vs) u = add_last x vs u

    -- A batch to which a user is added: its head, its tail, and the cursor.
    added :
        (u : UserRecord) (batch : List UserRecord)
        → (v : UserRecord) × (vs : List UserRecord) × (batch ++ u ∷ [] ≡ v ∷ vs)
          × (last_of v vs ≡ u)
    added u [] = (u, [], refl, refl)
    added u (v ∷ vs) = (v, vs ++ u ∷ [], refl, add_last v vs u)

    flush-Ends :
        (p : Progress) (sent : List UserRecord) (v : UserRecord) (vs : List UserRecord)
        → Flushed sent p.world
        → p.batch ≡ v ∷ vs
        → p.cursor ≡ some (last_of v vs).id
        → let t = flush text_of cfg a c p in
          ((t.1 ≡ none) × (t.0.batch ≡ []) × Flushed (sent ++ p.batch) t.0.world)
          ⊎ ((t.1 ≢ none) × Flushed sent t.0.world)
    flush-Ends p sent v vs f b k =
        flushed-Ends p sent v vs _ f b k
          (publish_attempts-Published text_of cfg a c max_publish_retries p.batch p.world)

    -- What one user leads to.
    on_user-Ends :
        (seen : List UserRecord) (u : UserRecord) (p : Progress)
        → IsAt seen p
        → let t = on_user text_of cfg a c u p in
          ((t.1 ≡ none) × IsAt (seen ++ u ∷ []) t.0)
          ⊎ ((t.1 ≢ none) × Ends (seen ++ u ∷ []) t.0.world t.1)
    unfolding on_user
    on_user-Ends seen u p at = elim (Bool-cases (a.cancelled_at u.id)) [
      | inl e ↦
          rw (e, on_user)
            (inr (
              (λ h. cc),
              record {
                sent = at.sent;
                left = p.batch ++ u ∷ [];
                flushed_sent = at.flushed_sent;
                split =
                    sym (append_assoc at.sent p.batch (u ∷ [])) ∙ ap (λ t. t ++ u ∷ []) at.split;
                ended = inr (λ h. cc);
              },
            ))
      | inr e ↦
          let p' = add_user text_of cfg a u p in
          let (v, vs, b, l) = added u p.batch in
          let current : p'.cursor ≡ some (last_of v vs).id = rw l refl in
          let split' : at.sent ++ p'.batch ≡ seen ++ u ∷ [] =
            sym (append_assoc at.sent p.batch (u ∷ [])) ∙ ap (λ t. t ++ u ∷ []) at.split in
          elim (Bool-cases (ltb (length p'.batch) (batch_size_of cfg))) [
            | inl f ↦
                rw (e, on_user, f)
                  (inl (
                    refl,
                    record {
                      sent = at.sent;
                      flushed_sent = at.flushed_sent;
                      split = split';
                      current = inr (v, vs, b, current);
                    },
                  ))
            | inr f ↦
                rw (e, on_user, f)
                  (elim (flush-Ends p' at.sent v vs at.flushed_sent b current) [
                    | inl (n, empty, done) ↦ inl (
                      n,
                      record {
                        sent = at.sent ++ p'.batch;
                        flushed_sent = done;
                        split = rw (empty, append-nil (at.sent ++ p'.batch)) split';
                        current = inl empty;
                      },
                    )
                    | inr (n, done) ↦ inr (
                      n,
                      record {
                        sent = at.sent;
                        left = p'.batch;
                        flushed_sent = done;
                        split = split';
                        ended = inr n;
                      },
                    )
                  ])
          ]
    ]

    Ends-more :
        (all more : List UserRecord) (w' : World) (e : Option DispatchError)
        → e ≢ none
        → Ends all w' e
        → Ends (all ++ more) w' e
    Ends-more all more w' e n d = record {
      sent = d.sent;
      left = d.left ++ more;
      flushed_sent = d.flushed_sent;
      split = sym (append_assoc d.sent d.left more) ∙ ap (λ t. t ++ more) d.split;
      ended = inr n;
    }

    receive_users-Ends :
        (seen us : List UserRecord) (end : Option DispatchError) (p : Progress)
        → IsAt seen p
        → let t = receive_users text_of cfg a c us end p in
          ((t.1 ≡ none) × (end ≡ none) × IsAt (seen ++ us) t.0)
          ⊎ ((t.1 ≢ none) × Ends (seen ++ us) t.0.world t.1)
    unfolding receive_users
    receive_users-Ends seen [] none p at = inl (refl, refl, rw (append-nil seen) at)
    receive_users-Ends seen [] (some e) p at = inr (
      (λ h. cc),
      record {
        sent = at.sent;
        left = p.batch;
        flushed_sent = at.flushed_sent;
        split = at.split ∙ sym (append-nil seen);
        ended = inr (λ h. cc);
      },
    )
    receive_users-Ends seen (u ∷ us) end p at =
        let r = on_user text_of cfg a c u p in
        rw (← append_assoc seen (u ∷ []) us) (elim (on_user-Ends seen u p at) [
          | inl (n, at') ↦
              rw (n, receive_users) (receive_users-Ends (seen ++ u ∷ []) us end r.0 at')
          | inr (n, ends) ↦ elim (Option-cases r.1) [
            | inl e ↦ absurd (n e)
            | inr (m, e) ↦
                rw (e, receive_users)
                  (inr (
                    (λ h. cc),
                    Ends-more (seen ++ u ∷ []) us r.0.world (some m) (λ h. cc) (rw e at ends),
                  ))
          ]
        ])

    -- After the last batch.
    rest-Ends :
        (all : List UserRecord) (p : Progress)
        → IsAt all p
        → let t = flush_rest text_of cfg a c (p, none) in Ends all t.0.world t.1
    rest-Ends all p at = elim at.current [
      | inl b ↦
          rw (b, flush_rest)
            (record {
              sent = at.sent;
              left = [];
              flushed_sent = at.flushed_sent;
              split = append-nil at.sent ∙ sym (append-nil at.sent) ∙ rw b at at.split;
              ended = inl (refl, refl);
            })
      | inr (v, vs, b, k) ↦
          rw (b, flush_rest)
            (elim (flush-Ends p at.sent v vs at.flushed_sent b k) [
              | inl (n, empty, done) ↦ record {
                sent = at.sent ++ p.batch;
                left = [];
                flushed_sent = done;
                split = append-nil (at.sent ++ p.batch) ∙ at.split;
                ended = inl (n, refl);
              }
              | inr (n, done) ↦ record {
                sent = at.sent;
                left = p.batch;
                flushed_sent = done;
                split = at.split;
                ended = inr n;
              }
            ])
    ]

    pub dispatch_users-Ends :
        (us : List UserRecord) (end : Option DispatchError)
        → let t = dispatch_users text_of cfg a c (us, end) w in
          Ends us t.0.world t.1 × ((t.1 ≢ none) ⊎ (end ≡ none))
    unfolding dispatch_users
    dispatch_users-Ends us end =
        let p = start_progress text_of cfg a c w in
        let at : IsAt [] p = record {
          sent = [];
          flushed_sent = record {
            extra = [];
            published = sym (append-nil w.published);
            covered = Sublist.refl [];
            row = refl;
          };
          split = refl;
          current = inl refl;
        } in
        let r = receive_users text_of cfg a c us end p in
        elim (receive_users-Ends [] us end p at) [
          | inl (n, e, at') ↦
              rw (ap (λ e'. flush_rest text_of cfg a c (r.0, e')) n) (rest-Ends us r.0 at', inr e)
          | inr (n, ends) ↦ elim (Option-cases r.1) [
            | inl e ↦ absurd (n e)
            | inr (m, e) ↦
                rw (ap (λ e'. flush_rest text_of cfg a c (r.0, e')) e) (rw e at ends, inl (λ h. cc))
          ]
        ]
