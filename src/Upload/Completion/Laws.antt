-- ===== src/Upload/Completion/Laws.antt =====
-- What completing and aborting a session do, and who may do it.
use microservices_base_platf.Prelude.{
  ◌≡◌, sym, ap, ◌∙◌, ◌≢◌, ◌⊎◌, inl, inr, true, none, some, List, [], ◌∷◌, ◌++◌, map, Bool-cases,
  Option-cases, arith,
}
use microservices_base_platf.Platform.Text.{Bytes}
use microservices_base_platf.Platform.Errors.{Result, ok, err}
use microservices_base_platf.Upload.Domain.{
  Uuid, UploadSession, UploadPart, Video, SessionStatus, parts_of, get_session, get_video,
  update_video, update_session, same_session_status,
}
use microservices_base_platf.Upload.Effects.{World, Answers, StorageCall, uploaded_event}
use microservices_base_platf.Upload.Session.{transition_to}
use microservices_base_platf.Upload.Completion.{
  CompleteResponse, all_uploaded, completed_part, finish, uploaded_video, completed_session,
  complete_open, complete_read, complete_session, abort_session, aborted_session,
}

-- What `finish` leaves when it succeeds.
pub record IsFinished (a : Answers) (s : UploadSession) (parts : List UploadPart) (w w' : World)
    : Type 0 where
  pub etag : Bytes
  pub video : Video
  pub was_there : get_video s.video_id w.videos ≡ some video
  pub assembled :
      w'.storage
      ≡ w.storage
        ++ StorageCall.complete_multipart s.object_key s.s3_upload_id (map completed_part parts)
          ∷ []
  pub stored : w'.videos ≡ update_video (uploaded_video a etag s video) w.videos
  pub announced :
      a.publish ≡ none → w'.events ≡ w.events ++ uploaded_event (uploaded_video a etag s video) ∷ []
  pub closed :
      a.update_session ≡ none → w'.sessions ≡ update_session (completed_session a s) w.sessions

finish_success :
    (a : Answers) (s : UploadSession) (parts : List UploadPart) (w : World) (r : CompleteResponse)
    → (finish a s parts w).1 ≡ ok r
    → IsFinished a s parts w (finish a s parts w).0
unfolding finish
finish_success a s parts w r h = elim (Option-cases a.completed_etag) [
  | inl e ↦ absurd (ground arith)
  | inr (etag, e) ↦ elim (Option-cases (get_video s.video_id w.videos)) [
    | inl v ↦ absurd (ground arith)
    | inr (video, v) ↦ record {
      etag = etag;
      video = video;
      was_there = v;
      assembled = ground arith;
      stored = ground arith;
      announced = ground arith;
      closed = ground arith;
    }
  ]
]

abbrev pub IsErr : {A : Type 0} → Result A → Type 0
IsErr (ok x) = ⊥
IsErr (err e) = Unit {0}

abbrev pub claimed_world : UploadSession → World → World
claimed_world s = transition_to s.id SessionStatus.in_progress SessionStatus.completing

-- How a request that completes a session can succeed.
abbrev pub Completes : Answers → UploadSession → World → World → Type 0
Completes a s w w' =
    ((s.status ≡ SessionStatus.completed) × (w' ≡ w))
    ⊎ ((s.status ≡ SessionStatus.in_progress)
        × (all_uploaded (parts_of s.id w.parts) ≡ true)
        × IsFinished a s (parts_of s.id w.parts) (claimed_world s w) w')

complete_open_success :
    (a : Answers) (s : UploadSession) (parts : List UploadPart) (w : World) (r : CompleteResponse)
    → (complete_open a s parts w).1 ≡ ok r
    → (s.status ≡ SessionStatus.in_progress)
      × (all_uploaded parts ≡ true)
      × ((complete_open a s parts w).0 ≡ (finish a s parts (claimed_world s w)).0)
      × ((finish a s parts (claimed_world s w)).1 ≡ ok r)
unfolding complete_open
complete_open_success a s parts w r h = ground arith

complete_session_found :
    (a : Answers) (id : Uuid) (s : UploadSession) (w : World) (r : CompleteResponse)
    → get_session id w.sessions ≡ some s
    → (complete_session a id w).1 ≡ ok r
    → complete_session a id w ≡ complete_read a s w
unfolding complete_session
complete_session_found a id s w r e h = ground arith

complete_read_success :
    (a : Answers) (s : UploadSession) (w : World) (r : CompleteResponse)
    → (complete_read a s w).1 ≡ ok r
    → Completes a s w (complete_read a s w).0
complete_read_success a s w r h =
    elim (Bool-cases (same_session_status s.status SessionStatus.completed)) [
      | inl c ↦ inl (ground arith, ground arith)
      | inr c ↦
          let parts = parts_of s.id w.parts in
          let opened : complete_read a s w ≡ complete_open a s parts w = rw c in
          let (p, u, same, f) =
            complete_open_success a s parts w r (sym (ap (λ t. t.1) opened) ∙ h) in
          let done = finish_success a s parts (claimed_world s w) r f in
          inr (p, u, rw (opened, same) done)
    ]

-- A request to complete a session succeeds only for a session that exists, and only in two ways:
-- the session was completed before, and nothing changes; or it was in progress with all its parts
-- uploaded, and then the object was assembled from exactly these parts in the order of their
-- numbers, its video was marked as uploaded, the event was sent if the publisher took it, and the
-- session was marked as completed if that statement was carried out.
pub complete_session_success :
    (a : Answers) (id : Uuid) (w : World) (r : CompleteResponse)
    → (complete_session a id w).1 ≡ ok r
    → (s : UploadSession) × (get_session id w.sessions ≡ some s)
      × Completes a s w (complete_session a id w).0
unfolding complete_session
complete_session_success a id w r h = elim (Option-cases (get_session id w.sessions)) [
  | inl e ↦ absurd (ground arith)
  | inr (s, e) ↦
      let found = complete_session_found a id s w r e h in
      (s, e, rw found (complete_read_success a s w r (sym (ap (λ t. t.1) found) ∙ h)))
]

-- Aborting is not refused in any state: a session that is not aborted yet, a completed one too,
-- is marked as aborted if its row can be written, and its multipart upload is given up in the
-- storage if that takes the call.
abort_session_any :
    (a : Answers) (id : Uuid) (s : UploadSession) (w : World)
    → a.read_session ≡ none
    → a.update_session ≡ none
    → get_session id w.sessions ≡ some s
    → s.status ≢ SessionStatus.aborted
    → ((abort_session a id w).1 ≡ ok SessionStatus.aborted)
      × ((abort_session a id w).0.sessions ≡ update_session (aborted_session s) w.sessions)
      × ((abort_session a id w).0.videos ≡ w.videos)
unfolding abort_session
abort_session_any a id s w r u h n = ground arith
