-- ===== src/Upload/VideoService/Laws.antt =====
-- What completing the upload of a video does.
use microservices_base_platf.Prelude.{
  ℕ, ◌≡◌, refl, sym, ap, ◌∙◌, ◌≢◌, ◌⊎◌, inl, inr, none, some, [], ◌∷◌, ◌++◌, Option-cases, arith,
}
use microservices_base_platf.Platform.Text.{Bytes}
use microservices_base_platf.Platform.Errors.{ok}
use microservices_base_platf.Upload.Domain.{Uuid, Video, VideoStatus, get_video, update_video}
use microservices_base_platf.Upload.Effects.{World, Answers, uploaded_event}
use microservices_base_platf.Upload.VideoService.{
  uploaded, record_upload, complete_by, complete_upload,
}

-- The object is there, the row is updated from it, and the event is sent if the publisher takes it.
pub record IsRecorded (a : Answers) (x v : Video) (w w' : World) : Type 0 where
  pub size : ℕ
  pub etag : Bytes
  pub exists : a.head_object ≡ some (some (size, etag))
  pub video : v ≡ uploaded a size etag x
  pub stored : w'.videos ≡ update_video v w.videos
  pub announced : a.publish ≡ none → w'.events ≡ w.events ++ uploaded_event v ∷ []
  pub kept : (w'.sessions ≡ w.sessions) × (w'.parts ≡ w.parts) × (w'.storage ≡ w.storage)

record_upload_success :
    (a : Answers) (x v : Video) (w : World)
    → (record_upload a x w).1 ≡ ok v
    → IsRecorded a x v w (record_upload a x w).0
record_upload_success a x v w h = elim (Option-cases a.head_object) [
  | inl e ↦ absurd (ground arith)
  | inr (o, e) ↦ elim (Option-cases o) [
    | inl f ↦ absurd (ground arith)
    | inr ((size, etag), f) ↦ record {
      size = size;
      etag = etag;
      exists = cc;
      video = ground arith;
      stored = ground arith;
      announced = ground arith;
      kept = ground arith;
    }
  ]
]

complete_by_success :
    (s : VideoStatus) (a : Answers) (x v : Video) (w : World)
    → (complete_by s a x w).1 ≡ ok v
    → ((s ≡ VideoStatus.uploaded) × (v ≡ x) × ((complete_by s a x w).0 ≡ w))
      ⊎ ((s ≢ VideoStatus.uploaded) × IsRecorded a x v w (complete_by s a x w).0)
complete_by_success VideoStatus.uploaded a x v w h = inl (refl, ground arith, refl)
complete_by_success VideoStatus.pending_upload a x v w h =
    inr (ground arith, record_upload_success a x v w h)
complete_by_success VideoStatus.aborted a x v w h =
    inr (ground arith, record_upload_success a x v w h)
complete_by_success VideoStatus.expired a x v w h =
    inr (ground arith, record_upload_success a x v w h)

complete_upload_found :
    (a : Answers) (id : Uuid) (x v : Video) (w : World)
    → get_video id w.videos ≡ some x
    → (complete_upload a id w).1 ≡ ok v
    → complete_upload a id w ≡ complete_by x.status a x w
unfolding complete_upload
complete_upload_found a id x v w e h = ground arith

-- A request to complete the upload of a video succeeds only for a video that exists, and only in
-- two ways: it was uploaded before, and nothing changes; or its object is in the storage, and then
-- the video's row takes its size and ETag, is marked as uploaded whatever its status was, and the
-- event is sent if the publisher takes it.
pub complete_upload_success :
    (a : Answers) (id : Uuid) (v : Video) (w : World)
    → (complete_upload a id w).1 ≡ ok v
    → (x : Video) × (get_video id w.videos ≡ some x)
      × (((x.status ≡ VideoStatus.uploaded) × (v ≡ x) × ((complete_upload a id w).0 ≡ w))
          ⊎ ((x.status ≢ VideoStatus.uploaded) × IsRecorded a x v w (complete_upload a id w).0))
unfolding complete_upload
complete_upload_success a id v w h = elim (Option-cases (get_video id w.videos)) [
  | inl e ↦ absurd (ground arith)
  | inr (x, e) ↦
      let found = complete_upload_found a id x v w e h in
      (x, e, rw found (complete_by_success x.status a x v w (sym (ap (λ t. t.1) found) ∙ h)))
]
