-- ===== src/Upload/VideoService.antt =====
-- services/upload/internal/service/video_service.go: a file is uploaded in one piece.
pub mod Laws
use microservices_base_platf.Prelude.{ℕ, String, not, Option, none, some, [], ◌∷◌, ◌++◌, ltb}
use microservices_base_platf.Platform.Text.{Bytes}
use microservices_base_platf.Platform.Errors.{AppError, Reason, bad_request, ok, err}
use microservices_base_platf.Upload.Domain.{Uuid, Time, Video, UploadConfig, VideoStatus}
use microservices_base_platf.Upload.Effects.{
  World, Answers, StorageCall, M, ◌>>=◌, ◌>>◌, return, fail_if, must, attempt, find_video,
  record_call, publish_uploaded_event,
}
use microservices_base_platf.Upload.Session.{mime_type_allowed, presigned_url, save_video}

pub record InitUploadRequest : Type 0 where
  pub title : String
  pub description : String
  pub mime_type : Bytes
  pub size_bytes : ℕ

abbrev pub insert_video : Video → World → World
insert_video v w = record w { videos = w.videos ++ v ∷ [] }

abbrev pub new_video : UploadConfig → Answers → InitUploadRequest → Time → Video
new_video cfg a req expires_at = record {
  id = a.new_id;
  title = req.title;
  description = req.description;
  owner_id = none;
  object_key = a.object_key;
  bucket = cfg.bucket;
  mime_type = req.mime_type;
  size_bytes = none;
  etag = [];
  status = VideoStatus.pending_upload;
  storage_url = a.public_url;
  upload_expires_at = some expires_at;
  uploaded_at = none;
}

-- The object key, built from the date, the new id and the extension, and its public URL are taken
-- from the answers.
unfoldable pub init_upload : UploadConfig → Answers → InitUploadRequest → M (Video × String)
init_upload cfg a req = do
  fail_if (not (mime_type_allowed cfg req.mime_type)) (bad_request Reason.mime_type_not_allowed)
  fail_if (ltb cfg.max_size_bytes req.size_bytes) (bad_request Reason.size_exceeds_limit)
  url ← presigned_url a.presigned
  must a.create_video (insert_video (new_video cfg a req url.1))
  return (new_video cfg a req url.1, url.0)

-- `HeadObject`: an error, no object, or the object's size and ETag.
abbrev pub existing_object : Option (Option (ℕ × Bytes)) → M (ℕ × Bytes)
existing_object none w = (w, err AppError.internal_server)
existing_object (some none) w = (w, err (bad_request Reason.object_not_found))
existing_object (some (some object)) w = (w, ok object)

abbrev pub uploaded : Answers → ℕ → Bytes → Video → Video
uploaded a size etag v = record v {
  status = VideoStatus.uploaded;
  size_bytes = some size;
  etag = etag;
  uploaded_at = some a.now;
}

abbrev pub record_upload : Answers → Video → M Video
record_upload a v = do
  object ← existing_object a.head_object
  must a.update_video (save_video (uploaded a object.0 object.1 v))
  publish_uploaded_event a (uploaded a object.0 object.1 v)
  return (uploaded a object.0 object.1 v)

-- `CompleteUpload`, by the status that was read.
abbrev pub complete_by : VideoStatus → Answers → Video → M Video
complete_by VideoStatus.uploaded a v = return v
complete_by VideoStatus.pending_upload a v = record_upload a v
complete_by VideoStatus.aborted a v = record_upload a v
complete_by VideoStatus.expired a v = record_upload a v

unfoldable pub complete_upload : Answers → Uuid → M Video
complete_upload a id = do video ← find_video a id; complete_by video.status a video

abbrev pub aborted : Video → Video
aborted v = record v { status = VideoStatus.aborted }

abbrev pub delete_and_abort : Answers → Video → M VideoStatus
delete_and_abort a v = do
  attempt a.delete_object (record_call (StorageCall.delete_object v.object_key))
  must a.update_video (save_video (aborted v))
  return VideoStatus.aborted

abbrev pub abort_by : VideoStatus → Answers → Video → M VideoStatus
abort_by VideoStatus.aborted a v = return VideoStatus.aborted
abort_by VideoStatus.pending_upload a v = delete_and_abort a v
abort_by VideoStatus.uploaded a v = delete_and_abort a v
abort_by VideoStatus.expired a v = delete_and_abort a v

unfoldable pub abort_upload : Answers → Uuid → M VideoStatus
abort_upload a id = do video ← find_video a id; abort_by video.status a video

unfoldable pub get_video_response : Answers → Uuid → M Video
get_video_response a id = find_video a id
