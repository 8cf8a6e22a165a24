-- ===== src/Platform/Errors.antt =====
-- pkg/errors/errors.go: the errors that a service returns, with their HTTP codes. The text of a
-- message is left out; the reasons of a bad request are told apart.
use microservices_base_platf.Prelude.{ℕ}

pub data Reason : Type 0 where
  mime_type_not_allowed size_exceeds_limit too_many_parts invalid_video_id : Reason
  wrong_video_status wrong_session_status part_out_of_range part_already_uploaded : Reason
  empty_etag parts_not_uploaded already_completing object_not_found : Reason
  event_type_not_configurable : Reason

pub data AppError : Type 0 where
  bad_request : Reason → AppError
  unauthorized forbidden not_found internal_server too_many_requests : AppError

unfoldable pub code : AppError → ℕ
code (bad_request r) = 400
code unauthorized = 401
code forbidden = 403
code not_found = 404
code too_many_requests = 429
code internal_server = 500

pub data Result (A : Type 0) : Type 0 where
  ok : A → Result A
  err : AppError → Result A
