-- ===== src/Upload/Janitor.antt =====
-- services/upload/internal/worker/janitor_worker.go: what became of uploads that ran out of time.
-- The answers may differ from row to row.
pub mod Laws
use microservices_base_platf.Prelude.{ℕ, String, Option, none, some, List, [], ◌∷◌}
use microservices_base_platf.Platform.Text.{Bytes}
use microservices_base_platf.Upload.Domain.{
  Uuid, Video, UploadSession, SessionStatus, VideoStatus, list_expired_pending,
  list_expired_active_sessions,
}
use microservices_base_platf.Upload.Effects.{World, Answers, attempt, publish_uploaded_event}
use microservices_base_platf.Upload.Session.{abort_multipart_upload, save_session, save_video}
use microservices_base_platf.Upload.VideoService.{uploaded}

abbrev pub expired : Video → Video
expired v = record v { status = VideoStatus.expired }

abbrev pub expired_session : UploadSession → UploadSession
expired_session s = record s { status = SessionStatus.expired }

-- The event is sent only after the update.
abbrev pub recover : Option String → Answers → Video → World → World
recover none a v w = (publish_uploaded_event a v (save_video v w)).0
recover (some e) a v w = w

-- `processVideo`, by what `HeadObject` says.
abbrev pub process_by : Option (Option (ℕ × Bytes)) → Answers → Video → World → World
process_by none a v w = w
process_by (some none) a v w = (attempt a.update_video (save_video (expired v)) w).0
process_by (some (some (size, etag))) a v w = recover a.update_video a (uploaded a size etag v) w

unfoldable pub process_video : Answers → Video → World → World
process_video a v w = process_by a.head_object a v w

unfoldable pub process_videos : (Uuid → Answers) → List Video → World → World
process_videos answers [] w = w
process_videos answers (v ∷ vs) w = process_videos answers vs (process_video (answers v.id) v w)

-- `runBatch`.
abbrev pub run_batch_on : Option String → (Uuid → Answers) → List Video → World → World
run_batch_on none answers vs w = process_videos answers vs w
run_batch_on (some e) answers vs w = w

unfoldable pub run_batch : ℕ → Answers → (Uuid → Answers) → World → World
run_batch limit a answers w =
    run_batch_on a.list_expired answers (list_expired_pending a.now limit w.videos) w

-- The body of the loop of `runSessionBatch`.
unfoldable pub expire_session : Answers → UploadSession → World → World
expire_session a s w =
    (attempt a.update_session (save_session (expired_session s))
      (abort_multipart_upload a s.object_key s.s3_upload_id w).0).0

unfoldable pub expire_sessions : (Uuid → Answers) → List UploadSession → World → World
expire_sessions answers [] w = w
expire_sessions answers (s ∷ ss) w = expire_sessions answers ss (expire_session (answers s.id) s w)

abbrev pub run_session_batch_on :
    Option String → (Uuid → Answers) → List UploadSession → World → World
run_session_batch_on none answers ss w = expire_sessions answers ss w
run_session_batch_on (some e) answers ss w = w

unfoldable pub run_session_batch : ℕ → Answers → (Uuid → Answers) → World → World
run_session_batch limit a answers w =
    run_session_batch_on a.list_expired answers
      (list_expired_active_sessions a.now limit w.sessions) w
