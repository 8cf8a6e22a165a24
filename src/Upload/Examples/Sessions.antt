-- ===== src/Upload/Examples/Sessions.antt =====
-- The upload service at concrete inputs.
use microservices_base_platf.Prelude.{
  ◌≡◌, ◌≢◌, ◌⊎◌, refl, none, some, List, [], ◌∷◌, ◌++◌, map, All,
}
use microservices_base_platf.Platform.Text.{split, bytes_eq, trim_space, trim, trim_left}
use microservices_base_platf.Platform.Errors.{Result}
use microservices_base_platf.Upload.Domain.{
  UploadSession, UploadPart, Video, SessionStatus, VideoStatus, get_video, get_session,
  transition_session_status,
}
use microservices_base_platf.Upload.Effects.{World, Answers, StorageCall}
use microservices_base_platf.Upload.Session.{
  get_part_url, confirm_part, init_chunked_upload, mime_type_allowed, part_size, ceil_div,
}
use microservices_base_platf.Upload.Session.Plan.{
  Covers, IsFresh, numbers_from, init_chunked_upload-Covers,
}
use microservices_base_platf.Upload.Completion.{
  CompleteResponse, claim_session, complete_open, complete_session, abort_session,
  session_to_complete_response,
}
use microservices_base_platf.Upload.VideoService.{complete_upload, uploaded}
use microservices_base_platf.Upload.VideoService.Laws.{IsRecorded, complete_upload_success}
use microservices_base_platf.Upload.Janitor.{run_batch}
use microservices_base_platf.Upload.Janitor.Laws.{videos_of, run_batch-spares}
use microservices_base_platf.Upload.Keeps.{IsValid}
use microservices_base_platf.Upload.Etags.{Request, handle_all, handle_all-IsValid}
use microservices_base_platf.Upload.Completion.Laws.{Completes, IsErr, complete_session_success}
use microservices_base_platf.Upload.Completion.Exclusive.{IsRefused, complete_open_exclusive}
use microservices_base_platf.Upload.Completion.Stuck.{complete_session_stuck}
use microservices_base_platf.Upload.Examples.{
  parse_uuid, mp4, config, answers, video, session, part, world, request,
}

-- 25 MB are cut into three parts of 10 MiB.
abbrev started : UploadSession
started = record {
  id = 77;
  video_id = 1;
  s3_upload_id = "u-1";
  object_key = "videos/1.mp4";
  bucket = "videos";
  mime_type = mp4;
  total_parts = 3;
  part_size_bytes = 10485760;
  total_size_bytes = 25000000;
  status = SessionStatus.initiated;
  expires_at = 87400;
  completed_at = none;
}

abbrev after_init : World × Result UploadSession
after_init = init_chunked_upload parse_uuid config answers request (world SessionStatus.in_progress)

init_chunked_upload-Covers_example :
    (parts : List UploadPart) × Covers started
    × (started.status ≡ SessionStatus.initiated)
    × (started.total_size_bytes ≡ 25000000)
    × (after_init.0.sessions ≡ session SessionStatus.in_progress ∷ started ∷ [])
    × (after_init.0.parts ≡ part 2 ∷ part 1 ∷ [] ++ parts)
    × (map (λ p. p.part_number) parts ≡ numbers_from 0 3)
    × All (IsFresh 77) parts
    × ((v : Video) × (get_video 1 (video ∷ []) ≡ some v)
        × (v.status ≡ VideoStatus.pending_upload)
        × (after_init.0.storage ≡ StorageCall.create_multipart v.object_key "u-1" ∷ []))
unfolding init_chunked_upload mime_type_allowed split bytes_eq trim_space trim trim_left part_size
    ceil_div
init_chunked_upload-Covers_example =
    init_chunked_upload-Covers parse_uuid config answers request (world SessionStatus.in_progress)
      started refl

abbrev after_complete : World × Result CompleteResponse
after_complete = complete_session answers 5 (world SessionStatus.in_progress)

abbrev response : CompleteResponse
response = record {
  session_id = 5;
  video_id = 1;
  status = SessionStatus.completed;
  etag = mp4;
  size_bytes = some 20000000;
  uploaded_at = some 1000;
}

complete_session_success_example :
    (s : UploadSession) × (get_session 5 (session SessionStatus.in_progress ∷ []) ≡ some s)
    × Completes answers s (world SessionStatus.in_progress) after_complete.0
unfolding complete_session transition_session_status session_to_complete_response
complete_session_success_example =
    complete_session_success answers 5 (world SessionStatus.in_progress) response refl

abbrev open_session : UploadSession
open_session = session SessionStatus.in_progress

abbrev second : World × Result CompleteResponse
second =
    complete_open answers open_session (part 1 ∷ part 2 ∷ [])
      (claim_session answers.transition 5 (world SessionStatus.in_progress)).0

complete_open_exclusive_example :
    (IsErr second.1
      × (second.0.storage ≡ [])
      × (second.0.videos ≡ video ∷ [])
      × (second.0.events ≡ []))
    × (((complete_open answers open_session
            (part 1 ∷ part 2 ∷ [])
            (world SessionStatus.in_progress)).0.storage
          ≡ [])
        ⊎ IsRefused answers open_session
            (part 1 ∷ part 2 ∷ [])
            (complete_open answers open_session
              (part 1 ∷ part 2 ∷ [])
              (world SessionStatus.in_progress)).0)
unfolding transition_session_status
complete_open_exclusive_example =
    complete_open_exclusive answers answers open_session (part 1 ∷ part 2 ∷ [])
      (world SessionStatus.in_progress) refl

-- The video cannot be read once the object is there.
abbrev unread : Answers
unread = record answers { read_video = some "timeout" }

abbrev interrupted : World × Result CompleteResponse
interrupted = complete_session unread 5 (world SessionStatus.in_progress)

interrupted-IsErr : IsErr interrupted.1
unfolding complete_session transition_session_status
interrupted-IsErr = tt

interrupted_assembles : interrupted.0.storage ≢ []
unfolding complete_session transition_session_status
interrupted_assembles h = cc

complete_session_stuck_example :
    (s : UploadSession) × (get_session 5 interrupted.0.sessions ≡ some s)
    × (s.status ≡ SessionStatus.completing)
    × ((IsErr (complete_session answers 5 interrupted.0).1
          × ((complete_session answers 5 interrupted.0).0 ≡ interrupted.0))
        × (IsErr (get_part_url answers 5 1 interrupted.0).1
            × ((get_part_url answers 5 1 interrupted.0).0 ≡ interrupted.0))
        × (IsErr (confirm_part answers 5 1 mp4 interrupted.0).1
            × ((confirm_part answers 5 1 mp4 interrupted.0).0 ≡ interrupted.0)))
complete_session_stuck_example =
    complete_session_stuck unread answers 5 1 mp4 (world SessionStatus.in_progress)
      interrupted-IsErr interrupted_assembles

abbrev after_abort : World × Result SessionStatus
after_abort = abort_session answers 5 (world SessionStatus.completed)

-- A part that is confirmed with empty quotes is refused, and the rest is completed.
abbrev requests : List (Answers × Request)
requests =
    (answers, Request.init_chunked request)
    ∷ (answers, Request.confirm 77 1 (b'"' ∷ b'"' ∷ []))
    ∷ (answers, Request.complete_chunked 5)
    ∷ (answers, Request.janitor_sessions 10 (λ _. answers))
    ∷ []

handle_all-IsValid_example :
    IsValid (handle_all parse_uuid config requests (world SessionStatus.in_progress))
handle_all-IsValid_example =
    handle_all-IsValid parse_uuid config requests (world SessionStatus.in_progress)
      (record { parts_have = ((λ _ e. cc), ((λ _ e. cc), tt)); calls_have = tt })

-- The object is there, so the upload is recorded.
abbrev found_object : Answers
found_object = record answers { head_object = some (some (123, mp4)) }

abbrev after_upload : World × Result Video
after_upload = complete_upload found_object 1 (world SessionStatus.in_progress)

complete_upload_success_example :
    (x : Video) × (get_video 1 (video ∷ []) ≡ some x)
    × (((x.status ≡ VideoStatus.uploaded)
          × (uploaded found_object 123 mp4 video ≡ x)
          × (after_upload.0 ≡ world SessionStatus.in_progress))
        ⊎ ((x.status ≢ VideoStatus.uploaded)
            × IsRecorded found_object x
                (uploaded found_object 123 mp4 video)
                (world SessionStatus.in_progress)
                after_upload.0))
unfolding complete_upload
complete_upload_success_example =
    complete_upload_success found_object 1 (uploaded found_object 123 mp4 video)
      (world SessionStatus.in_progress) refl

-- One video has run out of time, the other one has not.
abbrev overdue : Video
overdue = record video { id = 2; upload_expires_at = some 10 }

abbrev two_videos : World
two_videos = record (world SessionStatus.in_progress) { videos = video ∷ overdue ∷ [] }

run_batch-spares_example :
    videos_of 1 (run_batch 10 answers (λ _. answers) two_videos).videos ≡ video ∷ []
run_batch-spares_example = run_batch-spares 10 answers (λ _. answers) 1 two_videos (refl, tt)
