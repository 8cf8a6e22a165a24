-- ===== src/Upload/Domain.antt =====
-- services/upload/internal/domain, internal/config and the repositories: the rows of the upload
-- service, and the statements on them. Ids and times are numbers, sizes are not negative.
use microservices_base_platf.Prelude.{
  ℕ, String, Bool, true, false, ◌&&◌, Option, none, some, List, [], ◌∷◌, take, select, first,
  update_where, order_by, ltb, ◌==◌,
}
use microservices_base_platf.Platform.Text.{Bytes}

abbrev pub Uuid : Type 0
Uuid = ℕ

abbrev pub Time : Type 0
Time = ℕ

pub data SessionStatus : Type 0 where
  initiated in_progress completing completed aborted expired : SessionStatus

pub data PartStatus : Type 0 where
  pending uploaded : PartStatus

pub data VideoStatus : Type 0 where
  pending_upload uploaded aborted expired : VideoStatus

pub record UploadSession : Type 0 where
  pub id : Uuid
  pub video_id : Uuid
  pub s3_upload_id : String
  pub object_key : String
  pub bucket : String
  pub mime_type : Bytes
  pub total_parts : ℕ
  pub part_size_bytes : ℕ
  pub total_size_bytes : ℕ
  pub status : SessionStatus
  pub expires_at : Time
  pub completed_at : Option Time

pub record UploadPart : Type 0 where
  pub id : Uuid
  pub session_id : Uuid
  pub part_number : ℕ
  pub etag : Bytes
  pub status : PartStatus
  pub presign_url : String
  pub presign_expires_at : Option Time
  pub uploaded_at : Option Time

pub record Video : Type 0 where
  pub id : Uuid
  pub title : String
  pub description : String
  pub owner_id : Option Uuid
  pub object_key : String
  pub bucket : String
  pub mime_type : Bytes
  pub size_bytes : Option ℕ
  pub etag : Bytes
  pub status : VideoStatus
  pub storage_url : String
  pub upload_expires_at : Option Time
  pub uploaded_at : Option Time

pub record UploadConfig : Type 0 where
  pub max_size_bytes : ℕ
  pub presign_ttl_seconds : ℕ
  pub allowed_mime_types : Bytes
  pub chunk_size_mb : ℕ
  pub part_presign_ttl_seconds : ℕ
  pub session_ttl_hours : ℕ
  pub bucket : String

-- `UPDATE … SET status = to WHERE id = ? AND status = from` tests the status by its text.
abbrev pub same_session_status : SessionStatus → SessionStatus → Bool
same_session_status SessionStatus.initiated SessionStatus.initiated = true
same_session_status SessionStatus.in_progress SessionStatus.in_progress = true
same_session_status SessionStatus.completing SessionStatus.completing = true
same_session_status SessionStatus.completed SessionStatus.completed = true
same_session_status SessionStatus.aborted SessionStatus.aborted = true
same_session_status SessionStatus.expired SessionStatus.expired = true
same_session_status _ _ = false

abbrev pub is_uploaded : PartStatus → Bool
is_uploaded PartStatus.pending = false
is_uploaded PartStatus.uploaded = true

abbrev pub is_pending_upload : VideoStatus → Bool
is_pending_upload VideoStatus.pending_upload = true
is_pending_upload VideoStatus.uploaded = false
is_pending_upload VideoStatus.aborted = false
is_pending_upload VideoStatus.expired = false

-- The statements of `uploadSessionRepository`.
abbrev pub get_session : Uuid → List UploadSession → Option UploadSession
get_session id = first (λ s. s.id == id)

abbrev pub update_session : UploadSession → List UploadSession → List UploadSession
update_session s = update_where (λ r. r.id == s.id) (λ _. s)

abbrev pub parts_of : Uuid → List UploadPart → List UploadPart
parts_of id rows = order_by (λ p. p.part_number) (select (λ p. p.session_id == id) rows)

abbrev pub get_part : Uuid → ℕ → List UploadPart → Option UploadPart
get_part id number = first (λ p. p.session_id == id && p.part_number == number)

abbrev pub update_part : UploadPart → List UploadPart → List UploadPart
update_part p = update_where (λ r. r.id == p.id) (λ _. p)

abbrev pub uploaded_parts : Uuid → List UploadPart → List UploadPart
uploaded_parts id rows =
    order_by (λ p. p.part_number) (select (λ p. p.session_id == id && is_uploaded p.status) rows)

-- `TransitionSessionStatus`: whether a row was changed, and the rows.
abbrev pub matches_status : Uuid → SessionStatus → UploadSession → Bool
matches_status id from s = s.id == id && same_session_status s.status from

abbrev pub set_status : SessionStatus → UploadSession → UploadSession
set_status to s = record s { status = to }

-- `RowsAffected == 1`.
abbrev pub exactly_one : List UploadSession → Bool
exactly_one [] = false
exactly_one (s ∷ []) = true
exactly_one (s ∷ t ∷ rest) = false

unfoldable pub transition_session_status :
    Uuid → SessionStatus → SessionStatus → List UploadSession → Bool × List UploadSession
transition_session_status id from to rows = (
  exactly_one (select (matches_status id from) rows),
  update_where (matches_status id from) (set_status to) rows,
)

abbrev pub is_active : SessionStatus → Bool
is_active SessionStatus.initiated = true
is_active SessionStatus.in_progress = true
is_active SessionStatus.completing = false
is_active SessionStatus.completed = false
is_active SessionStatus.aborted = false
is_active SessionStatus.expired = false

unfoldable pub list_expired_active_sessions : Time → ℕ → List UploadSession → List UploadSession
list_expired_active_sessions before limit rows =
    take limit (select (λ s. is_active s.status && ltb s.expires_at before) rows)

-- The statements of `videoRepository`.
abbrev pub get_video : Uuid → List Video → Option Video
get_video id = first (λ v. v.id == id)

abbrev pub update_video : Video → List Video → List Video
update_video v = update_where (λ r. r.id == v.id) (λ _. v)

abbrev pub expires_before : Time → Option Time → Bool
expires_before before none = false
expires_before before (some t) = ltb t before

unfoldable pub list_expired_pending : Time → ℕ → List Video → List Video
list_expired_pending before limit rows =
    take limit
      (select (λ v. is_pending_upload v.status && expires_before before v.upload_expires_at) rows)
