-- ===== src/Upload/Etags.antt =====
-- Over all requests to the upload service and all rounds of its janitor: every part that counts
-- as uploaded has an ETag, and the storage is never asked to assemble a part without one.
use microservices_base_platf.Prelude.{ℕ, String, Option, none, some, List, [], ◌∷◌}
use microservices_base_platf.Platform.Text.{Bytes}
use microservices_base_platf.Upload.Domain.{
  Uuid, UploadSession, Video, UploadConfig, list_expired_pending, list_expired_active_sessions,
}
use microservices_base_platf.Upload.Effects.{World, Answers}
use microservices_base_platf.Upload.Session.{
  InitChunkedUploadRequest, init_chunked_upload, get_part_url, confirm_part, save_video,
}
use microservices_base_platf.Upload.Completion.{complete_session, abort_session}
use microservices_base_platf.Upload.VideoService.{
  InitUploadRequest, init_upload, complete_upload, abort_upload, uploaded,
}
use microservices_base_platf.Upload.Janitor.{
  expired, expired_session, recover, process_by, process_video, process_videos, run_batch_on,
  run_batch, expire_session, expire_sessions, run_session_batch_on, run_session_batch,
}
use microservices_base_platf.Upload.Keeps.{
  IsValid, IsKept, attempt-Keeps, publish_uploaded_event-Keeps,
}
use microservices_base_platf.Upload.Keeps.Parts.{get_part_url-Keeps, confirm_part-Keeps}
use microservices_base_platf.Upload.Keeps.Ends.{
  save_session-IsKept, save_video-IsKept, abort_multipart_upload-Keeps, complete_session-Keeps,
  abort_session-Keeps,
}
use microservices_base_platf.Upload.Keeps.Videos.{
  init_chunked_upload-Keeps, init_upload-Keeps, complete_upload-Keeps, abort_upload-Keeps,
}

recover-IsKept : (o : Option String) (a : Answers) (x : Video) → IsKept (recover o a x)
recover-IsKept none a x w v =
    ((publish_uploaded_event-Keeps a x).run (save_video x w) (save_video-IsKept x w v)).0
recover-IsKept (some e) a x w v = v

process_by-IsKept :
    (o : Option (Option (ℕ × Bytes))) (a : Answers) (x : Video) → IsKept (process_by o a x)
process_by-IsKept none a x w v = v
process_by-IsKept (some none) a x w v =
    ((attempt-Keeps a.update_video _ (save_video-IsKept (expired x))).run w v).0
process_by-IsKept (some (some (size, etag))) a x w v =
    recover-IsKept a.update_video a (uploaded a size etag x) w v

process_videos-IsKept :
    (answers : Uuid → Answers) (xs : List Video) → IsKept (process_videos answers xs)
unfolding process_videos process_video
process_videos-IsKept answers [] w v = v
process_videos-IsKept answers (x ∷ xs) w v =
    process_videos-IsKept answers xs (process_video (answers x.id) x w)
      (process_by-IsKept (answers x.id).head_object (answers x.id) x w v)

run_batch_on-IsKept :
    (o : Option String) (answers : Uuid → Answers) (xs : List Video)
    → IsKept (run_batch_on o answers xs)
run_batch_on-IsKept none answers xs w v = process_videos-IsKept answers xs w v
run_batch_on-IsKept (some e) answers xs w v = v

expire_session-IsKept : (a : Answers) (s : UploadSession) → IsKept (expire_session a s)
unfolding expire_session
expire_session-IsKept a s w v =
    ((attempt-Keeps a.update_session _ (save_session-IsKept (expired_session s))).run _
      ((abort_multipart_upload-Keeps a s.object_key s.s3_upload_id).run w v).0).0

expire_sessions-IsKept :
    (answers : Uuid → Answers) (ss : List UploadSession) → IsKept (expire_sessions answers ss)
unfolding expire_sessions
expire_sessions-IsKept answers [] w v = v
expire_sessions-IsKept answers (s ∷ ss) w v =
    expire_sessions-IsKept answers ss (expire_session (answers s.id) s w)
      (expire_session-IsKept (answers s.id) s w v)

run_session_batch_on-IsKept :
    (o : Option String) (answers : Uuid → Answers) (ss : List UploadSession)
    → IsKept (run_session_batch_on o answers ss)
run_session_batch_on-IsKept none answers ss w v = expire_sessions-IsKept answers ss w v
run_session_batch_on-IsKept (some e) answers ss w v = v

-- What the upload service can be asked to do, and the rounds of its janitor with their limit and
-- the answers that each row meets.
pub data Request : Type 0 where
  init_chunked : InitChunkedUploadRequest → Request
  part_url : Uuid → ℕ → Request
  confirm : Uuid → ℕ → Bytes → Request
  complete_chunked abort_chunked : Uuid → Request
  init_video : InitUploadRequest → Request
  complete_video abort_video : Uuid → Request
  janitor_videos janitor_sessions : ℕ → (Uuid → Answers) → Request

module _ (parse_uuid : String → Option Uuid) (cfg : UploadConfig) where
  pub handle : Answers → Request → World → World
  handle a (init_chunked req) w = (init_chunked_upload parse_uuid cfg a req w).0
  handle a (part_url id number) w = (get_part_url a id number w).0
  handle a (confirm id number etag) w = (confirm_part a id number etag w).0
  handle a (complete_chunked id) w = (complete_session a id w).0
  handle a (abort_chunked id) w = (abort_session a id w).0
  handle a (init_video req) w = (init_upload cfg a req w).0
  handle a (complete_video id) w = (complete_upload a id w).0
  handle a (abort_video id) w = (abort_upload a id w).0
  handle a (janitor_videos limit answers) w = run_batch limit a answers w
  handle a (janitor_sessions limit answers) w = run_session_batch limit a answers w

  pub handle_all : List (Answers × Request) → World → World
  handle_all [] w = w
  handle_all ((a, r) ∷ rs) w = handle_all rs (handle a r w)

  handle-IsValid : (a : Answers) (r : Request) → IsKept (handle a r)
  unfolding handle run_batch run_session_batch
  handle-IsValid a (init_chunked req) w v =
      ((init_chunked_upload-Keeps parse_uuid cfg a req).run w v).0
  handle-IsValid a (part_url id number) w v = ((get_part_url-Keeps a id number).run w v).0
  handle-IsValid a (confirm id number etag) w v = ((confirm_part-Keeps a id number etag).run w v).0
  handle-IsValid a (complete_chunked id) w v = ((complete_session-Keeps a id).run w v).0
  handle-IsValid a (abort_chunked id) w v = ((abort_session-Keeps a id).run w v).0
  handle-IsValid a (init_video req) w v = ((init_upload-Keeps cfg a req).run w v).0
  handle-IsValid a (complete_video id) w v = ((complete_upload-Keeps a id).run w v).0
  handle-IsValid a (abort_video id) w v = ((abort_upload-Keeps a id).run w v).0
  handle-IsValid a (janitor_videos limit answers) w v =
      run_batch_on-IsKept a.list_expired answers (list_expired_pending a.now limit w.videos) w v
  handle-IsValid a (janitor_sessions limit answers) w v =
      run_session_batch_on-IsKept a.list_expired answers
        (list_expired_active_sessions a.now limit w.sessions) w v

  -- Whatever requests the service is given, one after the other, whatever its janitor does between
  -- them and whatever answers they meet: if every uploaded part has an ETag and the storage was
  -- asked only to assemble parts with one, this holds afterwards.
  pub handle_all-IsValid :
      (rs : List (Answers × Request)) (w : World) → IsValid w → IsValid (handle_all rs w)
  unfolding handle_all
  handle_all-IsValid [] w v = v
  handle_all-IsValid ((a, r) ∷ rs) w v =
      handle_all-IsValid rs (handle a r w) (handle-IsValid a r w v)
