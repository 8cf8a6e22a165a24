-- ===== src/Upload/Queries.antt =====
-- services/upload/internal/service: GetSession and ListVideos, which only read. Rows are kept in the
-- order in which they were inserted, so that the newest come first in the reverse order.
use microservices_base_platf.Prelude.{
  ℕ, zero, suc, ◌*◌, ◌≤◌, ◌≡◌, refl, ap, ◌∙◌, String, Bool, ◌||◌, Option, none, some, List, [],
  ◌++◌, map, select, length, take-all, str_eq, offset_page, offset_pages, offset_pages-take,
}
use mathlib.Core.List.{reverse}
use microservices_base_platf.Platform.Text.{Bytes}
use microservices_base_platf.Platform.Errors.{Result, ok, err, AppError}
use microservices_base_platf.Upload.Domain.{
  Uuid, Time, Video, VideoStatus, UploadSession, UploadPart, SessionStatus, PartStatus, parts_of,
}
use microservices_base_platf.Upload.Effects.{Answers, M, ◌>>=◌, return, find_session}

-- `dto.PartStateResponse`.
pub record PartStateResponse : Type 0 where
  pub part_number : ℕ
  pub status : PartStatus
  pub etag : Bytes

-- `dto.GetSessionResponse`.
pub record GetSessionResponse : Type 0 where
  pub session_id : Uuid
  pub video_id : Uuid
  pub total_parts : ℕ
  pub part_size_bytes : ℕ
  pub total_size_bytes : ℕ
  pub status : SessionStatus
  pub expires_at : Time
  pub parts : List PartStateResponse

abbrev pub part_state : UploadPart → PartStateResponse
part_state p = record { part_number = p.part_number; status = p.status; etag = p.etag }

abbrev pub session_state : UploadSession → List UploadPart → GetSessionResponse
session_state s parts = record {
  session_id = s.id;
  video_id = s.video_id;
  total_parts = s.total_parts;
  part_size_bytes = s.part_size_bytes;
  total_size_bytes = s.total_size_bytes;
  status = s.status;
  expires_at = s.expires_at;
  parts = map part_state parts;
}

-- The parts of a session, which are preloaded with it.
abbrev pub preloaded : Option String → Uuid → M (List UploadPart)
preloaded none id w = (w, ok (parts_of id w.parts))
preloaded (some e) id w = (w, err AppError.internal_server)

-- `GetSession`.
unfoldable pub get_session_state : Answers → Uuid → M GetSessionResponse
get_session_state a id = do
  s ← find_session a id
  parts ← preloaded a.read_parts s.id
  return (session_state s parts)

-- `dto.ListVideosRequest`; its binding wants a page and a size of at least 1.
pub record ListVideosRequest : Type 0 where
  pub status : String
  pub page : ℕ
  pub page_size : ℕ

-- `dto.ListVideosResponse`.
pub record ListVideosResponse : Type 0 where
  pub videos : List Video
  pub total : ℕ
  pub page : ℕ
  pub page_size : ℕ

abbrev pub status_text : VideoStatus → String
status_text VideoStatus.pending_upload = "pending_upload"
status_text VideoStatus.uploaded = "uploaded"
status_text VideoStatus.aborted = "aborted"
status_text VideoStatus.expired = "expired"

-- `status = ?`, unless it is empty.
abbrev pub has_status : String → Video → Bool
has_status status v = str_eq status "" || str_eq (status_text v.status) status

-- The newest first, by `created_at DESC`.
abbrev pub newest_first : String → List Video → List Video
newest_first status rows = reverse (select (has_status status) rows)

-- `List` of the repository: the page and the number of all videos with the status, or the error of
-- the count or of the page.
abbrev pub list_page :
    Option String → Option String → String → ℕ → ℕ → List Video → Result (List Video × ℕ)
list_page (some e) o status page size rows = err AppError.internal_server
list_page none (some e) status page size rows = err AppError.internal_server
list_page none none status page size rows =
    ok (offset_page page size (newest_first status rows), length (select (has_status status) rows))

abbrev pub with_page : ListVideosRequest → Result (List Video × ℕ) → Result ListVideosResponse
with_page req (err e) = err e
with_page req (ok (videos, total)) =
    ok (record { videos = videos; total = total; page = req.page; page_size = req.page_size })

-- `ListVideos`, with what its two queries answer.
unfoldable pub list_videos :
    Option String → Option String → ListVideosRequest → List Video → Result ListVideosResponse
list_videos count find req rows =
    with_page req (list_page count find req.status req.page req.page_size rows)

abbrev pub videos_of : Result ListVideosResponse → List Video
videos_of (ok r) = r.videos
videos_of (err e) = []

-- What a client has read that asks for n pages, from the first one on.
pub read_pages : String → ℕ → ℕ → List Video → List Video
unfolding list_videos
read_pages status zero size rows = []
read_pages status (suc n) size rows =
    read_pages status n size rows
    ++ videos_of
        (list_videos none none (record { status = status; page = suc n; page_size = size }) rows)

read-offset_pages :
    (status : String) (n size : ℕ) (rows : List Video)
    → read_pages status n size rows ≡ offset_pages n size (newest_first status rows)
unfolding read_pages list_videos
read-offset_pages status zero size rows = refl
read-offset_pages status (suc n) size rows =
    ap (λ vs. vs ++ offset_page (suc n) size (newest_first status rows))
      (read-offset_pages status n size rows)

-- A client that asks for the pages 1 to n, enough to hold all videos with a status, has read exactly
-- these, newest first, each once, if the queries do not fail and the table does not change meanwhile.
list_videos-pages :
    (status : String) (n size : ℕ) (rows : List Video)
    → length (newest_first status rows) ≤ n * size
    → read_pages status n size rows ≡ newest_first status rows
list_videos-pages status n size rows l =
    read-offset_pages status n size rows
    ∙ offset_pages-take n size (newest_first status rows)
    ∙ take-all (n * size) (newest_first status rows) l
