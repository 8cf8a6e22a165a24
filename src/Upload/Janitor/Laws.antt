-- ===== src/Upload/Janitor/Laws.antt =====
-- Which videos a round of the janitor can change.
use microservices_base_platf.Prelude.{
  ℕ, ◌≡◌, refl, ◌∙◌, ◌≢◌, inl, inr, String, Bool, false, ◌&&◌, Option, none, some, List, [], ◌∷◌,
  select, All, All-take, ◌==◌, Bool-cases, arith, eqb_iff,
}
use microservices_base_platf.Platform.Text.{Bytes}
use microservices_base_platf.Upload.Domain.{
  Uuid, Time, Video, is_pending_upload, expires_before, update_video, list_expired_pending,
}
use microservices_base_platf.Upload.Effects.{World, Answers}
use microservices_base_platf.Upload.VideoService.{uploaded}
use microservices_base_platf.Upload.Janitor.{
  expired, process_by, process_video, process_videos, run_batch_on, run_batch,
}

-- The rows that have an id.
abbrev pub videos_of : Uuid → List Video → List Video
videos_of id = select (λ v. v.id == id)

-- What the janitor looks for at a time.
abbrev pub is_overdue : Time → Video → Bool
is_overdue now v = is_pending_upload v.status && expires_before now v.upload_expires_at

videos_of-update_video :
    (id : Uuid) (v : Video) (rows : List Video)
    → v.id ≢ id
    → videos_of id (update_video v rows) ≡ videos_of id rows
videos_of-update_video id v [] h = refl
videos_of-update_video id v (r ∷ rows) h =
    ground (
      arith,
      eqb_iff r.id v.id,
      eqb_iff r.id id,
      eqb_iff v.id id,
      videos_of-update_video id v rows h,
    )

process_by-videos_of :
    (o : Option (Option (ℕ × Bytes))) (a : Answers) (id : Uuid) (v : Video) (w : World)
    → v.id ≢ id
    → videos_of id (process_by o a v w).videos ≡ videos_of id w.videos
process_by-videos_of none a id v w h = refl
process_by-videos_of (some none) a id v w h =
    ground (arith, videos_of-update_video id (expired v) w.videos h)
process_by-videos_of (some (some (size, etag))) a id v w h =
    ground (arith, videos_of-update_video id (uploaded a size etag v) w.videos h)

process_videos-videos_of :
    (answers : Uuid → Answers) (id : Uuid) (vs : List Video) (w : World)
    → All (λ v. v.id ≢ id) vs
    → videos_of id (process_videos answers vs w).videos ≡ videos_of id w.videos
unfolding process_videos process_video
process_videos-videos_of answers id [] w h = refl
process_videos-videos_of answers id (v ∷ vs) w h =
    let a = answers v.id in
    process_videos-videos_of answers id vs (process_video a v w) h.1
    ∙ process_by-videos_of a.head_object a id v w h.0

overdue-elsewhere :
    (now : Time) (id : Uuid) (rows : List Video)
    → All (λ v. is_overdue now v ≡ false) (videos_of id rows)
    → All (λ v. v.id ≢ id) (select (is_overdue now) rows)
overdue-elsewhere now id [] h = tt
overdue-elsewhere now id (r ∷ rows) h = elim (Bool-cases (r.id == id)) [
  | inl e ↦
      let q : (is_overdue now r ≡ false) × All (λ v. is_overdue now v ≡ false) (videos_of id rows) =
        rw e at h in
      rw q.0 (overdue-elsewhere now id rows q.1)
  | inr e ↦
      let ih = overdue-elsewhere now id rows (rw e at h) in
      elim (Bool-cases (is_overdue now r)) [
        | inl c ↦ rw c ((λ q. cc ((eqb_iff r.id id).1 q)), ih)
        | inr c ↦ rw c ih
      ]
]

run_batch_on-videos_of :
    (o : Option String) (answers : Uuid → Answers) (id : Uuid) (vs : List Video) (w : World)
    → All (λ v. v.id ≢ id) vs
    → videos_of id (run_batch_on o answers vs w).videos ≡ videos_of id w.videos
run_batch_on-videos_of none answers id vs w h = process_videos-videos_of answers id vs w h
run_batch_on-videos_of (some e) answers id vs w h = refl

-- A round of the janitor leaves a video alone that is not pending or whose time has not run out,
-- whatever answers it meets for the other videos.
pub run_batch-spares :
    (limit : ℕ) (a : Answers) (answers : Uuid → Answers) (id : Uuid) (w : World)
    → All (λ v. is_overdue a.now v ≡ false) (videos_of id w.videos)
    → videos_of id (run_batch limit a answers w).videos ≡ videos_of id w.videos
unfolding run_batch list_expired_pending
run_batch-spares limit a answers id w h =
    run_batch_on-videos_of a.list_expired answers id _ w
      (All-take _ limit _ (overdue-elsewhere a.now id w.videos h))
