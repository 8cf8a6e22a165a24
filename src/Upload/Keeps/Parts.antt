-- ===== src/Upload/Keeps/Parts.antt =====
-- The requests to an upload session keep the invariant of the upload service.
use microservices_base_platf.Prelude.{
  ℕ, ◌≡◌, ◌≢◌, String, Bool, true, false, not, ◌||◌, Option, none, some, [], All-update_where, ltb,
  arith,
}
use microservices_base_platf.Platform.Text.{Bytes, trim_quotes}
use microservices_base_platf.Platform.Errors.{Reason, bad_request}
use microservices_base_platf.Upload.Domain.{Uuid, UploadSession, UploadPart, is_active, is_uploaded}
use microservices_base_platf.Upload.Effects.{
  Answers, M, ◌>>=◌, ◌>>◌, fail_if, must, attempt, return,
}
use microservices_base_platf.Upload.Session.{
  PartUrlResponse, ConfirmPartResponse, get_part_url, confirm_part, is_initiated, save_part,
  with_url, presigned_url, start_session, is_empty, confirmed, number_uploaded, count_uploaded,
}
use microservices_base_platf.Upload.Keeps.{
  HasEtag, Any, Keeps, IsKept, bind-Keeps, then-Keeps, seq-Keeps, guard-Keeps, return-Keeps,
  fail_if-Keeps, must-Keeps, attempt-Keeps, find_session-Keeps, find_part-Keeps,
}

save_part-IsKept : (p : UploadPart) → HasEtag p → IsKept (save_part p)
save_part-IsKept p h w v = record {
  parts_have = All-update_where HasEtag _ (λ _. p) (λ x _ _. h) w.parts v.parts_have;
  calls_have = v.calls_have;
}

pub presigned_url-Keeps : (o : Option (String × ℕ)) → Keeps Any (presigned_url o)
presigned_url-Keeps none = record { run = λ w v. (v, tt) }
presigned_url-Keeps (some u) = record { run = λ w v. (v, tt) }

start_session-Keeps : (b : Bool) (a : Answers) (id : Uuid) → Keeps Any (start_session b a id)
start_session-Keeps true a id =
    attempt-Keeps a.transition _
      λ w v. record { parts_have = v.parts_have; calls_have = v.calls_have }
start_session-Keeps false a id = return-Keeps Any _ tt

abbrev url_response : ℕ → String × ℕ → PartUrlResponse
url_response number url = record { part_number = number; upload_url = url.0; expires_at = url.1 }

-- What `get_part_url` does with the part that it has found.
abbrev get_url_for : Answers → ℕ → ℕ → UploadSession → UploadPart → M PartUrlResponse
get_url_for a id number s p = do
  fail_if (is_uploaded p.status) (bad_request Reason.part_already_uploaded)
  url ← presigned_url a.presigned
  attempt a.update_part (save_part (with_url url p))
  start_session (is_initiated s.status) a id
  return (url_response number url)

get_url_for-Keeps :
    (a : Answers) (id number : ℕ) (s : UploadSession) (p : UploadPart)
    → HasEtag p
    → Keeps Any (get_url_for a id number s p)
get_url_for-Keeps a id number s p h =
    seq-Keeps Any _ _
      (fail_if-Keeps (is_uploaded p.status) (bad_request Reason.part_already_uploaded))
      (then-Keeps Any _ _ (presigned_url-Keeps a.presigned) λ url.
        seq-Keeps Any _ _ (attempt-Keeps a.update_part _ (save_part-IsKept (with_url url p) h)) (
          seq-Keeps Any _ _ (start_session-Keeps (is_initiated s.status) a id)
            (return-Keeps Any (url_response number url) tt)))

pub get_part_url-Keeps : (a : Answers) (id number : ℕ) → Keeps Any (get_part_url a id number)
unfolding get_part_url
get_part_url-Keeps a id number = then-Keeps Any _ _ (find_session-Keeps a id) λ s.
    seq-Keeps Any _ _
      (fail_if-Keeps (not (is_active s.status)) (bad_request Reason.wrong_session_status))
      (seq-Keeps Any _ _
        (fail_if-Keeps (ltb number 1 || ltb s.total_parts number)
          (bad_request Reason.part_out_of_range))
        (bind-Keeps Any _ (get_url_for a id number s) (find_part-Keeps a id number)
          (get_url_for-Keeps a id number s)))

is_empty-false : (s : Bytes) → is_empty s ≡ false → s ≢ []
is_empty-false s h = ground arith

number_uploaded-Keeps : (o : Option String) (id : Uuid) → Keeps Any (number_uploaded o id)
number_uploaded-Keeps none id = record { run = λ w v. (v, tt) }
number_uploaded-Keeps (some e) id = record { run = λ w v. (v, tt) }

count_uploaded-Keeps : (a : Answers) (id : Uuid) → Keeps Any (count_uploaded a id)
count_uploaded-Keeps a id = number_uploaded-Keeps a.read_parts id

-- The end of `confirm_part`, when the ETag is not empty.
abbrev confirm_with : Answers → ℕ → ℕ → Bytes → UploadSession → UploadPart → M ConfirmPartResponse
confirm_with a id number etag s p = do
  must a.update_part (save_part (confirmed a etag p))
  n ← count_uploaded a id
  return (record { part_number = number; uploaded_parts = n; total_parts = s.total_parts })

confirm_with-Keeps :
    (a : Answers) (id number : ℕ) (etag : Bytes) (s : UploadSession) (p : UploadPart)
    → etag ≢ []
    → Keeps Any (confirm_with a id number etag s p)
confirm_with-Keeps a id number etag s p e =
    seq-Keeps Any _ _ (must-Keeps a.update_part _ (save_part-IsKept (confirmed a etag p) (λ _. e)))
      (then-Keeps Any _ _ (count_uploaded-Keeps a id) λ n.
        return-Keeps Any
          (record { part_number = number; uploaded_parts = n; total_parts = s.total_parts }) tt)

pub confirm_part-Keeps :
    (a : Answers) (id number : ℕ) (etag : Bytes) → Keeps Any (confirm_part a id number etag)
unfolding confirm_part
confirm_part-Keeps a id number etag = then-Keeps Any _ _ (find_session-Keeps a id) λ s.
    seq-Keeps Any _ _
      (fail_if-Keeps (not (is_active s.status)) (bad_request Reason.wrong_session_status))
      (then-Keeps Any _ _ (find_part-Keeps a id number) λ p.
        seq-Keeps Any _ _
          (fail_if-Keeps (is_uploaded p.status) (bad_request Reason.part_already_uploaded))
          (guard-Keeps Any (is_empty (trim_quotes etag)) (bad_request Reason.empty_etag)
            (confirm_with a id number (trim_quotes etag) s p)
            λ e. confirm_with-Keeps a id number (trim_quotes etag) s p (is_empty-false _ e)))
