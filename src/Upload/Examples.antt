-- ===== src/Upload/Examples.antt =====
-- Inputs of the upload service, and what it does with them in the children.
mod Sessions
use microservices_base_platf.Prelude.{
  ℕ, ◌≡◌, ◌≢◌, ◌⊎◌, refl, refl, String, Option, none, some, List, [], ◌∷◌, ◌++◌, map, All, str_eq,
  if◌then◌else◌,
}
use microservices_base_platf.Platform.Text.{Bytes, split, bytes_eq, trim_space, trim, trim_left}
use microservices_base_platf.Platform.Errors.{AppError, Result, ok, err}
use microservices_base_platf.Upload.Domain.{
  Uuid, UploadSession, UploadPart, Video, UploadConfig, SessionStatus, PartStatus, VideoStatus,
  get_video, get_session, update_session, transition_session_status,
}
use microservices_base_platf.Upload.Effects.{World, Answers, StorageCall}
use microservices_base_platf.Upload.Session.{
  InitChunkedUploadRequest, init_chunked_upload, get_part_url, confirm_part, mime_type_allowed,
  part_size, ceil_div,
}
use microservices_base_platf.Upload.Session.Plan.{
  Covers, IsFresh, numbers_from, init_chunked_upload-Covers,
}
use microservices_base_platf.Upload.Completion.{
  CompleteResponse, claim_session, complete_open, complete_session, abort_session, aborted_session,
  finish, completed_part, session_to_complete_response,
}
use microservices_base_platf.Upload.VideoService.{complete_upload, uploaded}
use microservices_base_platf.Upload.VideoService.Laws.{IsRecorded, complete_upload_success}
use microservices_base_platf.Upload.Janitor.{run_batch}
use microservices_base_platf.Upload.Janitor.Laws.{videos_of, run_batch-spares}
use microservices_base_platf.Upload.Keeps.{IsValid}
use microservices_base_platf.Upload.Etags.{Request, handle_all, handle_all-IsValid}
use microservices_base_platf.Upload.Completion.Laws.{Completes, IsErr, complete_session_success}

abbrev pub parse_uuid : String → Option Uuid
parse_uuid s = if str_eq s "v-1" then some 1 else none

abbrev pub mp4 : Bytes
mp4 = b'm' ∷ b'p' ∷ b'4' ∷ []

abbrev pub config : UploadConfig
config = record {
  max_size_bytes = 1000000000;
  presign_ttl_seconds = 900;
  allowed_mime_types = b'a' ∷ b',' ∷ b' ' ∷ mp4;
  chunk_size_mb = 10;
  part_presign_ttl_seconds = 900;
  session_ttl_hours = 0;
  bucket = "videos";
}

abbrev pub answers : Answers
answers = record {
  now = 1000;
  new_id = 77;
  new_part_id = λ i. i;
  read_session = none;
  read_part = none;
  read_parts = none;
  read_video = none;
  list_expired = none;
  create_session = none;
  create_video = none;
  update_part = none;
  update_session = none;
  update_video = none;
  transition = none;
  roll_back = none;
  new_upload_id = some "u-1";
  presigned = some ("https://storage/part", 1900);
  object_key = "videos/1.mp4";
  public_url = "https://storage/videos/1.mp4";
  head_object = some none;
  delete_object = none;
  completed_etag = some mp4;
  abort_multipart = none;
  publish = none;
}

abbrev pub video : Video
video = record {
  id = 1;
  title = "film";
  description = "";
  owner_id = none;
  object_key = "videos/1.mp4";
  bucket = "videos";
  mime_type = mp4;
  size_bytes = none;
  etag = [];
  status = VideoStatus.pending_upload;
  storage_url = "";
  upload_expires_at = none;
  uploaded_at = none;
}

abbrev pub session : SessionStatus → UploadSession
session status = record {
  id = 5;
  video_id = 1;
  s3_upload_id = "u-0";
  object_key = "videos/1.mp4";
  bucket = "videos";
  mime_type = mp4;
  total_parts = 2;
  part_size_bytes = 10485760;
  total_size_bytes = 20000000;
  status = status;
  expires_at = 9000;
  completed_at = none;
}

abbrev pub part : ℕ → UploadPart
part number = record {
  id = number;
  session_id = 5;
  part_number = number;
  etag = mp4;
  status = PartStatus.uploaded;
  presign_url = "";
  presign_expires_at = none;
  uploaded_at = some 500;
}

-- One session, the rows of whose parts are not in the order of their numbers.
abbrev pub world : SessionStatus → World
world status = record {
  sessions = session status ∷ [];
  parts = part 2 ∷ part 1 ∷ [];
  videos = video ∷ [];
  storage = [];
  events = [];
}

abbrev pub request : InitChunkedUploadRequest
request = record { video_id = "v-1"; mime_type = mp4; size_bytes = 25000000 }
