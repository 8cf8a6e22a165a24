-- ===== src/Upload/Completion/Exclusive.antt =====
-- Two requests to complete one session.
use microservices_base_platf.Prelude.{
  Bool, false, ◌≡◌, refl, ap, ◌⊎◌, inl, inr, String, Option, none, some, List, [], ◌∷◌, select,
  select-update_where_none, Option-cases, arith,
}
use microservices_base_platf.Platform.Errors.{ok}
use microservices_base_platf.Upload.Domain.{
  Uuid, UploadSession, UploadPart, SessionStatus, get_video, update_session,
  transition_session_status, matches_status, set_status,
}
use microservices_base_platf.Upload.Effects.{World, Answers}
use microservices_base_platf.Upload.Session.{transition_to}
use microservices_base_platf.Upload.Completion.{
  CompleteResponse, session_to_complete_response, claim_session, finish, uploaded_video,
  completed_session, complete_open,
}
use microservices_base_platf.Upload.Completion.Laws.{IsErr, claimed_world}

-- After one request has moved a session from `in_progress` to `completing`, no row of that id is
-- left in `in_progress`.
claimed-none :
    (id : Uuid) (rows : List UploadSession)
    → select
        (matches_status id SessionStatus.in_progress)
        (transition_session_status id SessionStatus.in_progress SessionStatus.completing rows).1
      ≡ []
unfolding transition_session_status
claimed-none id rows =
    select-update_where_none (matches_status id SessionStatus.in_progress)
      (set_status SessionStatus.completing) (λ s. ground arith) rows

claim_session_won :
    (o : Option String) (id : Uuid) (w : World)
    → (claim_session o id w).1 ≡ ok tt
    → (claim_session o id w).0
      ≡ transition_to id SessionStatus.in_progress SessionStatus.completing w
claim_session_won none id w h = ground arith
claim_session_won (some e) id w h = cc

lost_claim :
    (o : Option String) (id : Uuid) (w : World)
    → select (matches_status id SessionStatus.in_progress) w.sessions ≡ []
    → IsErr (claim_session o id w).1
      × ((claim_session o id w).0.storage ≡ w.storage)
      × ((claim_session o id w).0.videos ≡ w.videos)
      × ((claim_session o id w).0.events ≡ w.events)
unfolding transition_session_status
lost_claim none id w h = rw (h, claim_session) (tt, refl, refl, refl)
lost_claim (some e) id w h = (tt, refl, refl, refl)

-- A request that has read a session and its parts is refused, and storage, videos and events stay.
abbrev pub IsRefused : Answers → UploadSession → List UploadPart → World → Type 0
IsRefused b s parts v =
    let r = complete_open b s parts v in
    IsErr r.1 × (r.0.storage ≡ v.storage) × (r.0.videos ≡ v.videos) × (r.0.events ≡ v.events)

second_loses :
    (b : Answers) (s : UploadSession) (parts : List UploadPart) (v : World)
    → select (matches_status s.id SessionStatus.in_progress) v.sessions ≡ []
    → IsRefused b s parts v
unfolding complete_open
second_loses b s parts v h = ground (arith, lost_claim b.transition s.id v h)

-- A completed session is not in progress.
completed-none :
    (a : Answers) (s : UploadSession) (rows : List UploadSession)
    → select (matches_status s.id SessionStatus.in_progress) rows ≡ []
    → select
        (matches_status s.id SessionStatus.in_progress)
        (update_session (completed_session a s) rows)
      ≡ []
completed-none a s rows h =
    select-update_where_quiet (matches_status s.id SessionStatus.in_progress) rows (ground arith) h
  where
    select-update_where_quiet :
        (p : UploadSession → Bool) (rows : List UploadSession)
        → p (completed_session a s) ≡ false
        → select p rows ≡ []
        → select p (update_session (completed_session a s) rows) ≡ []
    select-update_where_quiet p [] n h = refl
    select-update_where_quiet p (r ∷ rows) n h =
        ground (arith, n, h, select-update_where_quiet p rows n)

-- The end of a request: it has not assembled the object, or the rows are as they were, or it has
-- succeeded and marked its session as completed.
pub finish_ends :
    (a : Answers) (s : UploadSession) (parts : List UploadPart) (w : World)
    → ((finish a s parts w).0.storage ≡ w.storage)
      ⊎ ((finish a s parts w).0.sessions ≡ w.sessions)
      ⊎ ((r : CompleteResponse) × ((finish a s parts w).1 ≡ ok r)
          × ((finish a s parts w).0.sessions ≡ update_session (completed_session a s) w.sessions))
unfolding finish
finish_ends a s parts w = elim (Option-cases a.completed_etag) [
  | inl e ↦ inl (ground arith)
  | inr (etag, e) ↦ elim (Option-cases a.read_video) [
    | inr (x, r) ↦ inr (inl (ground arith))
    | inl r ↦ elim (Option-cases (get_video s.video_id w.videos)) [
      | inl g ↦ inr (inl (ground arith))
      | inr (v, g) ↦ elim (Option-cases a.update_video) [
        | inr (x, u) ↦ inr (inl (ground arith))
        | inl u ↦ elim (Option-cases a.update_session) [
          | inr (x, n) ↦ inr (inl (ground arith))
          | inl n ↦ inr (
              inr (
                session_to_complete_response (completed_session a s)
                    (some (uploaded_video a etag s v)),
                ground arith,
                ground arith,
              ))
        ]
      ]
    ]
  ]
]

complete_open_ends :
    (a : Answers) (s : UploadSession) (parts : List UploadPart) (w : World)
    → (claim_session a.transition s.id w).1 ≡ ok tt
    → ((complete_open a s parts w).0 ≡ w)
      ⊎ ((complete_open a s parts w).0 ≡ (finish a s parts (claimed_world s w)).0)
unfolding complete_open
complete_open_ends a s parts w h = ground arith

-- Of two requests that have both read a session and its parts, at most one assembles the object.
-- Once the first has moved the session to `completing`, the second one is refused, whatever its own
-- answers are, and neither storage, videos nor events change. The same holds after the first one has
-- come to its end, with or without an error, unless it has not assembled the object.
pub complete_open_exclusive :
    (a b : Answers) (s : UploadSession) (parts : List UploadPart) (w : World)
    → (claim_session a.transition s.id w).1 ≡ ok tt
    → IsRefused b s parts (claim_session a.transition s.id w).0
      × (((complete_open a s parts w).0.storage ≡ w.storage)
          ⊎ IsRefused b s parts (complete_open a s parts w).0)
complete_open_exclusive a b s parts w h =
    let v = claimed_world s w in
    let free = claimed-none s.id w.sessions in
    (
      rw (claim_session_won a.transition s.id w h) (second_loses b s parts v free),
      elim (complete_open_ends a s parts w h) [
        | inl e ↦ inl (ap (λ x. x.storage) e)
        | inr e ↦ rw e (elim (finish_ends a s parts v) [
          | inl k ↦ inl k
          | inr (inl k) ↦ inr (second_loses b s parts _ (rw k free))
          | inr (inr (r, o, k)) ↦
              inr (second_loses b s parts _ (rw k (completed-none a s v.sessions free)))
        ])
      ],
    )
