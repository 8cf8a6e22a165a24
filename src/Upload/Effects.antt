-- ===== src/Upload/Effects.antt =====
-- What the upload handlers act on: the three tables, the object storage and the event publisher.
-- An error leaves what was done before it in place.
use microservices_base_platf.Prelude.{
  ℕ, String, Bool, true, false, Option, none, some, List, [], ◌∷◌, ◌++◌,
}
use microservices_base_platf.Platform.Text.{Bytes}
use microservices_base_platf.Platform.Errors.{AppError, Result, ok, err}
use microservices_base_platf.Upload.Domain.{
  Uuid, Time, UploadSession, UploadPart, Video, get_session, get_video, get_part,
}

-- `storage.CompletedPart`.
pub record CompletedPart : Type 0 where
  pub part_number : ℕ
  pub etag : Bytes

-- A call that the object storage carried out.
pub data StorageCall : Type 0 where
  create_multipart : String → String → StorageCall
  complete_multipart : String → String → List CompletedPart → StorageCall
  abort_multipart : String → String → StorageCall
  delete_object : String → StorageCall

-- `dto.VideoUploadedEvent`, sent through the publisher.
pub record VideoUploadedEvent : Type 0 where
  pub video_id : Uuid
  pub object_key : String
  pub bucket : String
  pub mime_type : Bytes
  pub size_bytes : Option ℕ
  pub etag : Bytes
  pub uploaded_at : Option Time
  pub storage_url : String
  pub owner_id : Option Uuid

pub record World : Type 0 where
  pub sessions : List UploadSession
  pub parts : List UploadPart
  pub videos : List Video
  pub storage : List StorageCall
  pub events : List VideoUploadedEvent

-- What the database (`none` is success), the storage, the publisher and the clock answer within
-- one request. A statement that is answered with an error changes nothing.
pub record Answers : Type 0 where
  pub now : Time
  pub new_id : Uuid
  pub new_part_id : ℕ → Uuid
  pub read_session : Option String
  pub read_part : Option String
  pub read_parts : Option String
  pub read_video : Option String
  pub list_expired : Option String
  pub create_session : Option String
  pub create_video : Option String
  pub update_part : Option String
  pub update_session : Option String
  pub update_video : Option String
  pub transition : Option String
  pub roll_back : Option String
  pub new_upload_id : Option String
  pub presigned : Option (String × Time)
  pub object_key : String
  pub public_url : String
  pub head_object : Option (Option (ℕ × Bytes))
  pub delete_object : Option String
  pub completed_etag : Option Bytes
  pub abort_multipart : Option String
  pub publish : Option String

abbrev pub M : Type 0 → Type 0
M A = World → World × Result A

abbrev pub continue : {A B : Type 0} → (A → M B) → World → Result A → World × Result B
continue f w (ok a) = f a w
continue f w (err e) = (w, err e)

infixl 5 ◌>>=◌ ◌>>◌
abbrev pub ◌>>=◌ : {A B : Type 0} → M A → (A → M B) → M B
◌>>=◌ m f w = let (w', r) = m w in continue f w' r

abbrev pub ◌>>◌ : {B : Type 0} → M (Unit {0}) → M B → M B
m >> k = m >>= λ _. k

abbrev pub return : {A : Type 0} → A → M A
return a w = (w, ok a)

abbrev pub fail : {A : Type 0} → AppError → M A
fail e w = (w, err e)

-- `if test { return err }`.
abbrev pub fail_if : Bool → AppError → M (Unit {0})
fail_if true e w = (w, err e)
fail_if false e w = (w, ok tt)

-- A statement whose error is returned as an internal error.
abbrev pub must : Option String → (World → World) → M (Unit {0})
must none change w = (change w, ok tt)
must (some e) change w = (w, err AppError.internal_server)

-- A statement whose error is only logged.
abbrev pub attempt : Option String → (World → World) → M (Unit {0})
attempt none change w = (change w, ok tt)
attempt (some e) change w = (w, ok tt)

-- A row that is read: a missing one is not found, any other error is internal.
abbrev pub found : {A : Type 0} → Option String → Option A → M A
found none none w = (w, err AppError.not_found)
found none (some a) w = (w, ok a)
found (some e) row w = (w, err AppError.internal_server)

abbrev pub find_session : Answers → Uuid → M UploadSession
find_session a id w = found a.read_session (get_session id w.sessions) w

abbrev pub find_part : Answers → Uuid → ℕ → M UploadPart
find_part a id number w = found a.read_part (get_part id number w.parts) w

abbrev pub find_video : Answers → Uuid → M Video
find_video a id w = found a.read_video (get_video id w.videos) w

abbrev pub record_call : StorageCall → World → World
record_call c w = record w { storage = w.storage ++ c ∷ [] }

abbrev pub uploaded_event : Video → VideoUploadedEvent
uploaded_event v = record {
  video_id = v.id;
  object_key = v.object_key;
  bucket = v.bucket;
  mime_type = v.mime_type;
  size_bytes = v.size_bytes;
  etag = v.etag;
  uploaded_at = v.uploaded_at;
  storage_url = v.storage_url;
  owner_id = v.owner_id;
}

-- `publishUploadedEvent`.
abbrev pub publish_uploaded_event : Answers → Video → M (Unit {0})
publish_uploaded_event a v =
    attempt a.publish λ w. record w { events = w.events ++ uploaded_event v ∷ [] }
