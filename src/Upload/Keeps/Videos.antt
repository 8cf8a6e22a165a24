-- ===== src/Upload/Keeps/Videos.antt =====
-- Starting an upload, the video service and the janitor keep the invariant of the upload service.
use microservices_base_platf.Prelude.{
  ℕ, String, not, Option, none, some, List, [], ◌∷◌, All, All-append, ltb,
}
use microservices_base_platf.Platform.Text.{Bytes}
use microservices_base_platf.Platform.Errors.{Reason, bad_request}
use microservices_base_platf.Upload.Domain.{
  Uuid, UploadSession, UploadPart, Video, UploadConfig, VideoStatus, is_pending_upload,
}
use microservices_base_platf.Upload.Effects.{Answers, StorageCall, M, ◌>>◌, return, must}
use microservices_base_platf.Upload.Session.{
  InitChunkedUploadRequest, init_chunked_upload, new_parts, new_session, parsed_id,
  create_multipart_upload, store_session, insert_session, mime_type_allowed, ceil_div, part_size,
  max_part_count, at_least_one,
}
use microservices_base_platf.Upload.Session.Plan.{IsFresh, new_parts-IsFresh}
use microservices_base_platf.Upload.VideoService.{
  InitUploadRequest, new_video, insert_video, init_upload, existing_object, uploaded, record_upload,
  complete_by, complete_upload, aborted, delete_and_abort, abort_by, abort_upload,
}
use microservices_base_platf.Upload.Keeps.{
  HasEtag, Any, Keeps, IsKept, then-Keeps, seq-Keeps, return-Keeps, fail_if-Keeps, must-Keeps,
  attempt-Keeps, find_video-Keeps, record_call-IsKept, publish_uploaded_event-Keeps,
}
use microservices_base_platf.Upload.Keeps.Parts.{presigned_url-Keeps}
use microservices_base_platf.Upload.Keeps.Ends.{save_video-IsKept, abort_multipart_upload-Keeps}

fresh-HasEtag : (id : Uuid) (ps : List UploadPart) → All (IsFresh id) ps → All HasEtag ps
fresh-HasEtag id [] h = tt
fresh-HasEtag id (p ∷ ps) h = ((λ u. cc (h.0.1)), fresh-HasEtag id ps h.1)

insert_session-IsKept :
    (s : UploadSession) (id : Uuid) (ps : List UploadPart)
    → All (IsFresh id) ps
    → IsKept (insert_session s ps)
insert_session-IsKept s id ps h w v = record {
  parts_have = All-append HasEtag w.parts ps v.parts_have (fresh-HasEtag id ps h);
  calls_have = v.calls_have;
}

store_session-Keeps :
    (o : Option String) (a : Answers) (s : UploadSession) (id : Uuid) (ps : List UploadPart)
    → All (IsFresh id) ps
    → Keeps Any (store_session o a s ps)
store_session-Keeps none a s id ps h = record {
  run = λ w v. (insert_session-IsKept s id ps h w v, tt);
}
store_session-Keeps (some e) a s id ps h = record {
  run = λ w v. (((abort_multipart_upload-Keeps a s.object_key s.s3_upload_id).run w v).0, tt);
}

parsed_id-Keeps : (o : Option Uuid) (r : Reason) → Keeps Any (parsed_id o (bad_request r))
parsed_id-Keeps none r = record { run = λ w v. (v, tt) }
parsed_id-Keeps (some id) r = record { run = λ w v. (v, tt) }

create_multipart_upload-Keeps :
    (o : Option String) (key : String) → Keeps Any (create_multipart_upload o key)
create_multipart_upload-Keeps none key = record { run = λ w v. (v, tt) }
create_multipart_upload-Keeps (some id) key = record {
  run = λ w v. (record_call-IsKept (StorageCall.create_multipart key id) tt w v, tt);
}

pub init_chunked_upload-Keeps :
    (parse_uuid : String → Option Uuid) (cfg : UploadConfig) (a : Answers)
    (req : InitChunkedUploadRequest)
    → Keeps Any (init_chunked_upload parse_uuid cfg a req)
unfolding init_chunked_upload
init_chunked_upload-Keeps parse_uuid cfg a req =
    let count = ceil_div req.size_bytes (part_size cfg.chunk_size_mb) in
    seq-Keeps Any _ _
      (fail_if-Keeps (not (mime_type_allowed cfg req.mime_type))
        (bad_request Reason.mime_type_not_allowed))
      (seq-Keeps Any _ _
        (fail_if-Keeps (ltb cfg.max_size_bytes req.size_bytes)
          (bad_request Reason.size_exceeds_limit))
        (seq-Keeps Any _ _
          (fail_if-Keeps (ltb max_part_count count) (bad_request Reason.too_many_parts))
          (then-Keeps Any _ _ (parsed_id-Keeps (parse_uuid req.video_id) Reason.invalid_video_id)
            λ id. then-Keeps Any _ _ (find_video-Keeps a id) λ x.
              seq-Keeps Any _ _
                (fail_if-Keeps (not (is_pending_upload x.status))
                  (bad_request Reason.wrong_video_status))
                (then-Keeps Any _ _ (create_multipart_upload-Keeps a.new_upload_id x.object_key)
                  λ u.
                    store_session-Keeps a.create_session a
                      (new_session cfg a id x req u (at_least_one count)) a.new_id
                      (new_parts a a.new_id 0 (at_least_one count))
                      (new_parts-IsFresh a a.new_id 0 (at_least_one count))))))

insert_video-IsKept : (x : Video) → IsKept (insert_video x)
insert_video-IsKept x w v = record { parts_have = v.parts_have; calls_have = v.calls_have }

-- What `init_upload` does with the URL that it got.
abbrev store_video : UploadConfig → Answers → InitUploadRequest → String × ℕ → M (Video × String)
store_video cfg a req url = do
  must a.create_video (insert_video (new_video cfg a req url.1))
  return (new_video cfg a req url.1, url.0)

store_video-Keeps :
    (cfg : UploadConfig) (a : Answers) (req : InitUploadRequest) (url : String × ℕ)
    → Keeps Any (store_video cfg a req url)
store_video-Keeps cfg a req url =
    seq-Keeps Any _ _
      (must-Keeps a.create_video _ (insert_video-IsKept (new_video cfg a req url.1)))
      (return-Keeps Any (new_video cfg a req url.1, url.0) tt)

pub init_upload-Keeps :
    (cfg : UploadConfig) (a : Answers) (req : InitUploadRequest) → Keeps Any (init_upload cfg a req)
unfolding init_upload
init_upload-Keeps cfg a req =
    seq-Keeps Any _ _
      (fail_if-Keeps (not (mime_type_allowed cfg req.mime_type))
        (bad_request Reason.mime_type_not_allowed))
      (seq-Keeps Any _ _
        (fail_if-Keeps (ltb cfg.max_size_bytes req.size_bytes)
          (bad_request Reason.size_exceeds_limit))
        (then-Keeps Any _ (store_video cfg a req) (presigned_url-Keeps a.presigned)
          (store_video-Keeps cfg a req)))

existing_object-Keeps : (o : Option (Option (ℕ × Bytes))) → Keeps Any (existing_object o)
existing_object-Keeps none = record { run = λ w v. (v, tt) }
existing_object-Keeps (some none) = record { run = λ w v. (v, tt) }
existing_object-Keeps (some (some o)) = record { run = λ w v. (v, tt) }

record_upload-Keeps : (a : Answers) (x : Video) → Keeps Any (record_upload a x)
record_upload-Keeps a x = then-Keeps Any _ _ (existing_object-Keeps a.head_object) λ o.
    seq-Keeps Any _ _ (must-Keeps a.update_video _ (save_video-IsKept (uploaded a o.0 o.1 x))) (
      seq-Keeps Any _ _ (publish_uploaded_event-Keeps a (uploaded a o.0 o.1 x))
        (return-Keeps Any (uploaded a o.0 o.1 x) tt))

complete_by-Keeps : (s : VideoStatus) (a : Answers) (x : Video) → Keeps Any (complete_by s a x)
complete_by-Keeps VideoStatus.uploaded a x = return-Keeps Any x tt
complete_by-Keeps VideoStatus.pending_upload a x = record_upload-Keeps a x
complete_by-Keeps VideoStatus.aborted a x = record_upload-Keeps a x
complete_by-Keeps VideoStatus.expired a x = record_upload-Keeps a x

pub complete_upload-Keeps : (a : Answers) (id : Uuid) → Keeps Any (complete_upload a id)
unfolding complete_upload
complete_upload-Keeps a id =
    then-Keeps Any _ _ (find_video-Keeps a id) λ x. complete_by-Keeps x.status a x

delete_and_abort-Keeps : (a : Answers) (x : Video) → Keeps Any (delete_and_abort a x)
delete_and_abort-Keeps a x =
    seq-Keeps Any _ _
      (attempt-Keeps a.delete_object _
        (record_call-IsKept (StorageCall.delete_object x.object_key) tt))
      (seq-Keeps Any _ _ (must-Keeps a.update_video _ (save_video-IsKept (aborted x)))
        (return-Keeps Any VideoStatus.aborted tt))

abort_by-Keeps : (s : VideoStatus) (a : Answers) (x : Video) → Keeps Any (abort_by s a x)
abort_by-Keeps VideoStatus.aborted a x = return-Keeps Any VideoStatus.aborted tt
abort_by-Keeps VideoStatus.pending_upload a x = delete_and_abort-Keeps a x
abort_by-Keeps VideoStatus.uploaded a x = delete_and_abort-Keeps a x
abort_by-Keeps VideoStatus.expired a x = delete_and_abort-Keeps a x

pub abort_upload-Keeps : (a : Answers) (id : Uuid) → Keeps Any (abort_upload a id)
unfolding abort_upload
abort_upload-Keeps a id =
    then-Keeps Any _ _ (find_video-Keeps a id) λ x. abort_by-Keeps x.status a x
