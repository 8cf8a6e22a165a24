-- ===== src/Upload/Completion.antt =====
-- services/upload/internal/service/upload_session_service.go, the end of a session:
-- `CompleteSession` and `AbortSession`.
pub mod Laws
pub mod Exclusive
pub mod Stuck
use microservices_base_platf.Prelude.{
  ℕ, String, Bool, true, false, not, ◌&&◌, Option, none, some, List, [], ◌∷◌, map, if◌then◌else◌,
}
use microservices_base_platf.Platform.Text.{Bytes}
use microservices_base_platf.Platform.Errors.{AppError, Reason, bad_request, Result, ok, err}
use microservices_base_platf.Upload.Domain.{
  Uuid, Time, UploadSession, UploadPart, Video, SessionStatus, VideoStatus, is_uploaded, parts_of,
  transition_session_status, get_video, same_session_status,
}
use microservices_base_platf.Upload.Effects.{
  World, Answers, StorageCall, CompletedPart, M, ◌>>=◌, ◌>>◌, continue, return, fail, fail_if, must,
  attempt, found, find_session, record_call, publish_uploaded_event,
}
use microservices_base_platf.Upload.Session.{
  abort_multipart_upload, transition_to, save_session, save_video,
}

pub record CompleteResponse : Type 0 where
  pub session_id : Uuid
  pub video_id : Uuid
  pub status : SessionStatus
  pub etag : Bytes
  pub size_bytes : Option ℕ
  pub uploaded_at : Option Time

-- `sessionToCompleteResponse`.
unfoldable pub session_to_complete_response : UploadSession → Option Video → CompleteResponse
session_to_complete_response s none = record {
  session_id = s.id;
  video_id = s.video_id;
  status = s.status;
  etag = [];
  size_bytes = none;
  uploaded_at = none;
}
session_to_complete_response s (some v) = record {
  session_id = s.id;
  video_id = s.video_id;
  status = s.status;
  etag = v.etag;
  size_bytes = v.size_bytes;
  uploaded_at = v.uploaded_at;
}

abbrev pub all_uploaded : List UploadPart → Bool
all_uploaded [] = true
all_uploaded (p ∷ ps) = is_uploaded p.status && all_uploaded ps

abbrev pub completed_part : UploadPart → CompletedPart
completed_part p = record { part_number = p.part_number; etag = p.etag }

-- The outcome of the transition to `completing`: an error, or whether this caller made it.
abbrev pub claimed : Uuid → Bool → M (Unit {0})
claimed id true w = (transition_to id SessionStatus.in_progress SessionStatus.completing w, ok tt)
claimed id false w = (
  transition_to id SessionStatus.in_progress SessionStatus.completing w,
  err (bad_request Reason.already_completing),
)

abbrev pub claim_session : Option String → Uuid → M (Unit {0})
claim_session none id w =
    claimed id
      (transition_session_status id SessionStatus.in_progress SessionStatus.completing w.sessions).0
      w
claim_session (some e) id w = (w, err AppError.internal_server)

-- `CompleteMultipartUpload`; if it fails, the session goes back to `in_progress`.
abbrev pub complete_multipart_upload :
    Option Bytes → Answers → UploadSession → List UploadPart → M Bytes
complete_multipart_upload none a s parts w = (
  (attempt a.roll_back (transition_to s.id SessionStatus.completing SessionStatus.in_progress) w).0,
  err AppError.internal_server,
)
complete_multipart_upload (some etag) a s parts w = (
  record_call
      (StorageCall.complete_multipart s.object_key s.s3_upload_id (map completed_part parts)) w,
  ok etag,
)

-- The read of the video, where a missing row is an internal error too.
abbrev pub video_row : Option String → Option Video → M Video
video_row none none w = (w, err AppError.internal_server)
video_row none (some v) w = (w, ok v)
video_row (some e) v w = (w, err AppError.internal_server)

abbrev pub require_video : Answers → Uuid → M Video
require_video a id w = video_row a.read_video (get_video id w.videos) w

abbrev pub uploaded_video : Answers → Bytes → UploadSession → Video → Video
uploaded_video a etag s v = record v {
  status = VideoStatus.uploaded;
  etag = etag;
  size_bytes = some s.total_size_bytes;
  uploaded_at = some a.now;
}

abbrev pub completed_session : Answers → UploadSession → UploadSession
completed_session a s = record s { status = SessionStatus.completed; completed_at = some a.now }

-- The part of `CompleteSession` behind the transition.
unfoldable pub finish : Answers → UploadSession → List UploadPart → M CompleteResponse
finish a s parts = do
  etag ← complete_multipart_upload a.completed_etag a s parts
  video ← require_video a s.video_id
  must a.update_video (save_video (uploaded_video a etag s video))
  attempt a.update_session (save_session (completed_session a s))
  publish_uploaded_event a (uploaded_video a etag s video)
  return
      (session_to_complete_response (completed_session a s) (some (uploaded_video a etag s video)))

-- `video, _ := GetByID`.
abbrev pub row_or_nothing : Option String → Option Video → Option Video
row_or_nothing none v = v
row_or_nothing (some e) v = none

unfoldable pub complete_open : Answers → UploadSession → List UploadPart → M CompleteResponse
unfolding finish
complete_open a s parts = do
  fail_if (not (same_session_status s.status SessionStatus.in_progress))
      (bad_request Reason.wrong_session_status)
  fail_if (not (all_uploaded parts)) (bad_request Reason.parts_not_uploaded)
  claim_session a.transition s.id
  finish a s parts

abbrev pub complete_read : Answers → UploadSession → M CompleteResponse
complete_read a s w =
    if same_session_status s.status SessionStatus.completed
    then (
      w,
      ok (
          session_to_complete_response s
            (row_or_nothing a.read_video (get_video s.video_id w.videos))),
    )
    else complete_open a s (parts_of s.id w.parts) w

unfoldable pub complete_session : Answers → Uuid → M CompleteResponse
unfolding complete_open
complete_session a id = do session ← find_session a id; complete_read a session

abbrev pub aborted_session : UploadSession → UploadSession
aborted_session s = record s { status = SessionStatus.aborted }

-- `AbortSession`, after the read.
abbrev pub abort_read : Answers → UploadSession → M SessionStatus
abort_read a s w =
    if same_session_status s.status SessionStatus.aborted
    then (w, ok s.status)
    else (do
      abort_multipart_upload a s.object_key s.s3_upload_id
      must a.update_session (save_session (aborted_session s))
      return SessionStatus.aborted)
        w

unfoldable pub abort_session : Answers → Uuid → M SessionStatus
abort_session a id = do session ← find_session a id; abort_read a session
