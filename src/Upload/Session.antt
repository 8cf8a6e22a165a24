-- ===== src/Upload/Session.antt =====
-- services/upload/internal/service/upload_session_service.go: a file is uploaded in parts.
pub mod Plan
use microservices_base_platf.Prelude.{
  ℕ, zero, suc, ◌+◌, ◌-◌, ◌*◌, ◌/◌, String, Bool, true, false, not, ◌||◌, ◌&&◌, Option, none, some,
  List, [], ◌∷◌, ◌++◌, map, length, select, ltb, leb, ◌==◌, if◌then◌else◌,
}
use microservices_base_platf.Platform.Text.{Bytes, bytes_eq, split, trim_space, trim_quotes}
use microservices_base_platf.Platform.Errors.{AppError, Reason, bad_request, Result, ok, err}
use microservices_base_platf.Upload.Domain.{
  Uuid, Time, UploadSession, UploadPart, Video, UploadConfig, SessionStatus, PartStatus,
  VideoStatus, is_uploaded, is_pending_upload, is_active, update_session, update_part, update_video,
  parts_of, uploaded_parts, transition_session_status, get_video,
}
use microservices_base_platf.Upload.Effects.{
  World, Answers, StorageCall, CompletedPart, M, ◌>>=◌, ◌>>◌, continue, return, fail, fail_if, must,
  attempt, find_session, find_part, find_video, record_call, publish_uploaded_event,
}

abbrev pub min_part_size_bytes : ℕ
min_part_size_bytes = 5 * 1024 * 1024

abbrev pub max_part_count : ℕ
max_part_count = 10000

abbrev contains_trimmed : List Bytes → Bytes → Bool
contains_trimmed [] s = false
contains_trimmed (a ∷ rest) s = bytes_eq (trim_space a) s || contains_trimmed rest s

-- `validateMimeType`: the allowed types are separated by commas.
unfoldable pub mime_type_allowed : UploadConfig → Bytes → Bool
mime_type_allowed cfg mime = contains_trimmed (split b',' cfg.allowed_mime_types) mime

-- The two lower bounds on the size of a part.
unfoldable pub part_size : ℕ → ℕ
part_size chunk_size_mb =
    let mb = if ltb chunk_size_mb 5 then 5 else chunk_size_mb in
    let size = mb * 1024 * 1024 in
    if ltb size min_part_size_bytes then min_part_size_bytes else size

-- `int(math.Ceil(float64(size) / float64(partSize)))`, over the integers: with sizes below 2^53
-- the float computation rounds to the same integer.
unfoldable pub ceil_div : ℕ → ℕ → ℕ
ceil_div size part = (size + part - 1) / part

abbrev pub at_least_one : ℕ → ℕ
at_least_one n = if ltb n 1 then 1 else n

-- The parts numbered from `i + 1`, `count` of them.
pub new_parts : Answers → Uuid → ℕ → ℕ → List UploadPart
new_parts a session i zero = []
new_parts a session i (suc count) =
    record {
      id = a.new_part_id i;
      session_id = session;
      part_number = i + 1;
      etag = [];
      status = PartStatus.pending;
      presign_url = "";
      presign_expires_at = none;
      uploaded_at = none;
    }
    ∷ new_parts a session (suc i) count

pub record InitChunkedUploadRequest : Type 0 where
  pub video_id : String
  pub mime_type : Bytes
  pub size_bytes : ℕ

abbrev pub session_ttl : UploadConfig → ℕ
session_ttl cfg = if cfg.session_ttl_hours == 0 then 24 * 3600 else cfg.session_ttl_hours * 3600

-- The row of a new session for `count` parts.
abbrev pub new_session :
    UploadConfig → Answers → Uuid → Video → InitChunkedUploadRequest → String → ℕ → UploadSession
new_session cfg a id video req upload_id count = record {
  id = a.new_id;
  video_id = id;
  s3_upload_id = upload_id;
  object_key = video.object_key;
  bucket = video.bucket;
  mime_type = req.mime_type;
  total_parts = count;
  part_size_bytes = part_size cfg.chunk_size_mb;
  total_size_bytes = req.size_bytes;
  status = SessionStatus.initiated;
  expires_at = a.now + session_ttl cfg;
  completed_at = none;
}

-- `CreateMultipartUpload` of the storage, by its answer.
abbrev pub create_multipart_upload : Option String → String → M String
create_multipart_upload none key w = (w, err AppError.internal_server)
create_multipart_upload (some upload_id) key w =
    (record_call (StorageCall.create_multipart key upload_id) w, ok upload_id)

abbrev pub abort_multipart_upload : Answers → String → String → M (Unit {0})
abort_multipart_upload a key upload_id =
    attempt a.abort_multipart (record_call (StorageCall.abort_multipart key upload_id))

abbrev pub insert_session : UploadSession → List UploadPart → World → World
insert_session s parts w = record w { sessions = w.sessions ++ s ∷ []; parts = w.parts ++ parts }

-- `CreateSession` writes the session and its parts in one transaction. If that fails, the
-- multipart upload is given up.
abbrev pub store_session :
    Option String → Answers → UploadSession → List UploadPart → M UploadSession
store_session none a s parts w = (insert_session s parts w, ok s)
store_session (some e) a s parts w =
    ((abort_multipart_upload a s.object_key s.s3_upload_id w).0, err AppError.internal_server)

abbrev pub parsed_id : Option Uuid → AppError → M Uuid
parsed_id none e w = (w, err e)
parsed_id (some id) e w = (w, ok id)

module _ (parse_uuid : String → Option Uuid) (cfg : UploadConfig) (a : Answers) where
  unfoldable pub init_chunked_upload : InitChunkedUploadRequest → M UploadSession
  init_chunked_upload req =
      let size = part_size cfg.chunk_size_mb in
      let count = ceil_div req.size_bytes size in
      do
        fail_if (not (mime_type_allowed cfg req.mime_type))
            (bad_request Reason.mime_type_not_allowed)
        fail_if (ltb cfg.max_size_bytes req.size_bytes) (bad_request Reason.size_exceeds_limit)
        fail_if (ltb max_part_count count) (bad_request Reason.too_many_parts)
        id ← parsed_id (parse_uuid req.video_id) (bad_request Reason.invalid_video_id)
        video ← find_video a id
        fail_if (not (is_pending_upload video.status)) (bad_request Reason.wrong_video_status)
        upload_id ← create_multipart_upload a.new_upload_id video.object_key
        store_session a.create_session a
            (new_session cfg a id video req upload_id (at_least_one count))
            (new_parts a a.new_id 0 (at_least_one count))

pub record PartUrlResponse : Type 0 where
  pub part_number : ℕ
  pub upload_url : String
  pub expires_at : Time

-- `GeneratePresignedPartURL`, by its answer.
abbrev pub presigned_url : Option (String × Time) → M (String × Time)
presigned_url none w = (w, err AppError.internal_server)
presigned_url (some url) w = (w, ok url)

abbrev pub is_initiated : SessionStatus → Bool
is_initiated SessionStatus.initiated = true
is_initiated SessionStatus.in_progress = false
is_initiated SessionStatus.completing = false
is_initiated SessionStatus.completed = false
is_initiated SessionStatus.aborted = false
is_initiated SessionStatus.expired = false

abbrev pub transition_to : Uuid → SessionStatus → SessionStatus → World → World
transition_to id from to w = record w {
  sessions = (transition_session_status id from to w.sessions).1;
}

abbrev pub save_part : UploadPart → World → World
save_part p w = record w { parts = update_part p w.parts }

abbrev pub save_session : UploadSession → World → World
save_session s w = record w { sessions = update_session s w.sessions }

abbrev pub save_video : Video → World → World
save_video v w = record w { videos = update_video v w.videos }

abbrev pub with_url : String × Time → UploadPart → UploadPart
with_url url part = record part { presign_url = url.0; presign_expires_at = some url.1 }

-- The transition on the first part URL; its error is only logged.
abbrev pub start_session : Bool → Answers → Uuid → M (Unit {0})
start_session true a id =
    attempt a.transition (transition_to id SessionStatus.initiated SessionStatus.in_progress)
start_session false a id = return tt

module _ (a : Answers) where
  unfoldable pub get_part_url : Uuid → ℕ → M PartUrlResponse
  get_part_url id number = do
    session ← find_session a id
    fail_if (not (is_active session.status)) (bad_request Reason.wrong_session_status)
    fail_if (ltb number 1 || ltb session.total_parts number) (bad_request Reason.part_out_of_range)
    part ← find_part a id number
    fail_if (is_uploaded part.status) (bad_request Reason.part_already_uploaded)
    url ← presigned_url a.presigned
    attempt a.update_part (save_part (with_url url part))
    start_session (is_initiated session.status) a id
    return (record { part_number = number; upload_url = url.0; expires_at = url.1 })

pub record ConfirmPartResponse : Type 0 where
  pub part_number : ℕ
  pub uploaded_parts : ℕ
  pub total_parts : ℕ

abbrev pub is_empty : Bytes → Bool
is_empty [] = true
is_empty (b ∷ bs) = false

-- `GetUploadedParts`, of which only the number is used.
abbrev pub number_uploaded : Option String → Uuid → M ℕ
number_uploaded none id w = (w, ok (length (uploaded_parts id w.parts)))
number_uploaded (some e) id w = (w, err AppError.internal_server)

abbrev pub count_uploaded : Answers → Uuid → M ℕ
count_uploaded a id = number_uploaded a.read_parts id

abbrev pub confirmed : Answers → Bytes → UploadPart → UploadPart
confirmed a etag part = record part {
  etag = etag;
  status = PartStatus.uploaded;
  uploaded_at = some a.now;
}

module _ (a : Answers) where
  unfoldable pub confirm_part : Uuid → ℕ → Bytes → M ConfirmPartResponse
  confirm_part id number raw_etag = do
    session ← find_session a id
    fail_if (not (is_active session.status)) (bad_request Reason.wrong_session_status)
    part ← find_part a id number
    fail_if (is_uploaded part.status) (bad_request Reason.part_already_uploaded)
    fail_if (is_empty (trim_quotes raw_etag)) (bad_request Reason.empty_etag)
    must a.update_part (save_part (confirmed a (trim_quotes raw_etag) part))
    uploaded ← count_uploaded a id
    return (record {
      part_number = number;
      uploaded_parts = uploaded;
      total_parts = session.total_parts;
    })
