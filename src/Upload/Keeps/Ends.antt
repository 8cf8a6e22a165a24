-- ===== src/Upload/Keeps/Ends.antt =====
-- Starting, completing and aborting a session keep the invariant of the upload service.
use microservices_base_platf.Prelude.{
  ◌≡◌, ◌≢◌, inl, inr, String, Bool, true, false, not, Option, none, some, List, [], ◌∷◌, map, All,
  All-select, All-order_by, Bool-cases, arith,
}
use microservices_base_platf.Platform.Text.{Bytes}
use microservices_base_platf.Platform.Errors.{Reason, bad_request}
use microservices_base_platf.Upload.Domain.{
  Uuid, UploadSession, UploadPart, Video, SessionStatus, parts_of, same_session_status, get_video,
}
use microservices_base_platf.Upload.Effects.{Answers, StorageCall, M, ◌>>◌}
use microservices_base_platf.Upload.Session.{
  abort_multipart_upload, save_session, save_video, transition_to,
}
use microservices_base_platf.Upload.Completion.{
  CompleteResponse, complete_multipart_upload, claimed, claim_session, video_row, require_video,
  uploaded_video, completed_session, aborted_session, session_to_complete_response, finish,
  complete_open, complete_read, complete_session, abort_read, abort_session, all_uploaded,
  completed_part,
}
use microservices_base_platf.Upload.Keeps.{
  HasEtag, Any, Keeps, IsKept, then-Keeps, seq-Keeps, guard-Keeps, return-Keeps, fail_if-Keeps,
  must-Keeps, attempt-Keeps, find_session-Keeps, record_call-IsKept, publish_uploaded_event-Keeps,
}

pub save_session-IsKept : (s : UploadSession) → IsKept (save_session s)
save_session-IsKept s w v = record { parts_have = v.parts_have; calls_have = v.calls_have }

pub save_video-IsKept : (x : Video) → IsKept (save_video x)
save_video-IsKept x w v = record { parts_have = v.parts_have; calls_have = v.calls_have }

transition_to-IsKept : (id : Uuid) (from to : SessionStatus) → IsKept (transition_to id from to)
transition_to-IsKept id from to w v = record {
  parts_have = v.parts_have;
  calls_have = v.calls_have;
}

pub abort_multipart_upload-Keeps :
    (a : Answers) (key id : String) → Keeps Any (abort_multipart_upload a key id)
abort_multipart_upload-Keeps a key id =
    attempt-Keeps a.abort_multipart _ (record_call-IsKept (StorageCall.abort_multipart key id) tt)

-- Parts that are all uploaded and have an ETag then, can be assembled.
all_uploaded-etags :
    (parts : List UploadPart)
    → All HasEtag parts
    → all_uploaded parts ≡ true
    → All (λ p. p.etag ≢ []) (map completed_part parts)
all_uploaded-etags [] h u = tt
all_uploaded-etags (p ∷ ps) h u = (h.0 (ground arith), all_uploaded-etags ps h.1 (ground arith))

complete_multipart_upload-Keeps :
    (o : Option Bytes) (a : Answers) (s : UploadSession) (parts : List UploadPart)
    → All (λ p. p.etag ≢ []) (map completed_part parts)
    → Keeps Any (complete_multipart_upload o a s parts)
complete_multipart_upload-Keeps none a s parts h = record {
  run = λ w v. (
    ((attempt-Keeps a.roll_back _
          (transition_to-IsKept s.id SessionStatus.completing SessionStatus.in_progress)).run
        w v).0,
    tt,
  );
}
complete_multipart_upload-Keeps (some etag) a s parts h = record {
  run = λ w v. (
    record_call-IsKept
        (StorageCall.complete_multipart s.object_key s.s3_upload_id (map completed_part parts)) h w
        v,
    tt,
  );
}

video_row-Keeps : (o : Option String) (x : Option Video) → Keeps Any (video_row o x)
video_row-Keeps none none = record { run = λ w v. (v, tt) }
video_row-Keeps none (some x) = record { run = λ w v. (v, tt) }
video_row-Keeps (some e) x = record { run = λ w v. (v, tt) }

require_video-Keeps : (a : Answers) (id : Uuid) → Keeps Any (require_video a id)
require_video-Keeps a id = record {
  run = λ w v. (video_row-Keeps a.read_video (get_video id w.videos)).run w v;
}

claimed-Keeps : (id : Uuid) (b : Bool) → Keeps Any (claimed id b)
claimed-Keeps id true = record { run = λ w v. (transition_to-IsKept id _ _ w v, tt) }
claimed-Keeps id false = record { run = λ w v. (transition_to-IsKept id _ _ w v, tt) }

claim_session-Keeps : (o : Option String) (id : Uuid) → Keeps Any (claim_session o id)
claim_session-Keeps none id = record { run = λ w v. (claimed-Keeps id _).run w v }
claim_session-Keeps (some e) id = record { run = λ w v. (v, tt) }

finish-Keeps :
    (a : Answers) (s : UploadSession) (parts : List UploadPart)
    → All (λ p. p.etag ≢ []) (map completed_part parts)
    → Keeps Any (finish a s parts)
unfolding finish
finish-Keeps a s parts h =
    then-Keeps Any _ _ (complete_multipart_upload-Keeps a.completed_etag a s parts h) λ etag.
      then-Keeps Any _ _ (require_video-Keeps a s.video_id) λ x.
        seq-Keeps Any _ _
          (must-Keeps a.update_video _ (save_video-IsKept (uploaded_video a etag s x)))
          (seq-Keeps Any _ _
            (attempt-Keeps a.update_session _ (save_session-IsKept (completed_session a s)))
            (seq-Keeps Any _ _ (publish_uploaded_event-Keeps a (uploaded_video a etag s x)) (
              return-Keeps Any
                (session_to_complete_response (completed_session a s)
                  (some (uploaded_video a etag s x)))
                tt)))

abbrev claim_and_finish : Answers → UploadSession → List UploadPart → M CompleteResponse
claim_and_finish a s parts = do claim_session a.transition s.id; finish a s parts

complete_open-Keeps :
    (a : Answers) (s : UploadSession) (parts : List UploadPart)
    → All HasEtag parts
    → Keeps Any (complete_open a s parts)
unfolding complete_open
complete_open-Keeps a s parts h =
    seq-Keeps Any _ _
      (fail_if-Keeps (not (same_session_status s.status SessionStatus.in_progress))
        (bad_request Reason.wrong_session_status))
      (guard-Keeps Any (not (all_uploaded parts)) (bad_request Reason.parts_not_uploaded)
        (claim_and_finish a s parts)
        λ u.
          seq-Keeps Any _ _ (claim_session-Keeps a.transition s.id)
            (finish-Keeps a s parts (all_uploaded-etags parts h (ground arith))))

parts_of-HasEtag :
    (id : Uuid) (rows : List UploadPart) → All HasEtag rows → All HasEtag (parts_of id rows)
parts_of-HasEtag id rows h = All-order_by _ _ _ (All-select HasEtag HasEtag _ (λ p _ x. x) rows h)

complete_read-Keeps : (a : Answers) (s : UploadSession) → Keeps Any (complete_read a s)
complete_read-Keeps a s = record {
  run = λ w v. elim (Bool-cases (same_session_status s.status SessionStatus.completed)) [
    | inl c ↦ rw c (v, tt)
    | inr c ↦
        rw c ((complete_open-Keeps a s _ (parts_of-HasEtag s.id w.parts v.parts_have)).run w v)
  ];
}

pub complete_session-Keeps : (a : Answers) (id : Uuid) → Keeps Any (complete_session a id)
unfolding complete_session
complete_session-Keeps a id =
    then-Keeps Any _ _ (find_session-Keeps a id) λ s. complete_read-Keeps a s

abort_read-Keeps : (a : Answers) (s : UploadSession) → Keeps Any (abort_read a s)
abort_read-Keeps a s = record {
  run = λ w v. elim (Bool-cases (same_session_status s.status SessionStatus.aborted)) [
    | inl c ↦ rw c (v, tt)
    | inr c ↦ rw c (
        (seq-Keeps Any _ _ (abort_multipart_upload-Keeps a s.object_key s.s3_upload_id) (
            seq-Keeps Any _ _
              (must-Keeps a.update_session _ (save_session-IsKept (aborted_session s)))
              (return-Keeps Any SessionStatus.aborted tt))).run
          w v)
  ];
}

pub abort_session-Keeps : (a : Answers) (id : Uuid) → Keeps Any (abort_session a id)
unfolding abort_session
abort_session-Keeps a id = then-Keeps Any _ _ (find_session-Keeps a id) λ s. abort_read-Keeps a s
