-- ===== src/Identity/Stream.antt =====
-- services/identity/internal/grpc/user_service_server.go: the users that match a role are sent to a
-- client one by one, read from the database page by page. The rows do not change meanwhile.
pub mod Complete
mod Examples
use microservices_base_platf.Prelude.{
  ℕ, zero, suc, ◌+◌, String, Bool, true, false, Option, none, some, List, [], ◌∷◌, ◌++◌, length,
  ltb, ◌==◌, if◌then◌else◌, last_of,
}
use microservices_base_platf.Identity.Users.{Uuid, User, list_users, count_users}

-- `userpb.UserRecord`.
pub record UserRecord : Type 0 where
  pub id : Uuid
  pub email : String
  pub name : String
  pub role : String

abbrev pub record_of : User → UserRecord
record_of u = record { id = u.id; email = u.email; name = u.name; role = u.role }

-- How a stream ends that does not end well. `out_of_fuel` stands for a loop that goes on.
pub data StreamError : Type 0 where
  cancelled out_of_fuel : StreamError
  list_failed send_failed : String → StreamError

-- What the context and the database answer for each page, and the client for each user.
pub record Answers : Type 0 where
  pub cancelled_at : ℕ → Bool
  pub list : ℕ → Option String
  pub send : Uuid → Option String

abbrev pub default_stream_batch_size : ℕ
default_stream_batch_size = 500

-- A batch size that is not positive is given as 0.
abbrev pub batch_of : ℕ → ℕ
batch_of size = if size == 0 then default_stream_batch_size else size

-- What was sent, and the error, if there is one.
abbrev pub Streamed : Type 0
Streamed = List UserRecord × Option StreamError

-- The loop over one page.
pub send_page : (Uuid → Option String) → List User → List UserRecord → Streamed
send_page send [] sent = (sent, none)
send_page send (u ∷ us) sent = elim (send u.id) [
  | none ↦ send_page send us (sent ++ record_of u ∷ [])
  | some e ↦ (sent, some (send_failed e))
]

-- What follows the sends of a page: an error, the end after a page that is not full, or the next
-- page, behind the last user of this one.
abbrev pub after_page : Bool → Streamed → (List UserRecord → Streamed) → Streamed
after_page full (sent, some e) next = (sent, some e)
after_page true (sent, none) next = next sent
after_page false (sent, none) next = (sent, none)

abbrev pub stream_page :
    (Uuid → Option String)
    → ℕ
    → List User
    → List UserRecord
    → (Uuid → List UserRecord → Streamed)
    → Streamed
stream_page send batch [] sent next = (sent, none)
stream_page send batch (u ∷ us) sent next =
    after_page (if ltb (length (u ∷ us)) batch then false else true) (send_page send (u ∷ us) sent)
      (next (last_of u us).id)

module _ (a : Answers) (role : String) (batch : ℕ) (rows : List User) where
  -- The loop of `StreamUsers`, with fuel; `page` counts its rounds.
  pub stream_pages : ℕ → ℕ → Option Uuid → List UserRecord → Streamed
  unfolding send_page
  stream_pages zero page cursor sent = (sent, some out_of_fuel)
  stream_pages (suc fuel) page cursor sent = elim (a.cancelled_at page) [
    | true ↦ (sent, some cancelled)
    | false ↦ elim (a.list page) [
      | some e ↦ (sent, some (list_failed e))
      | none ↦
          stream_page a.send batch (list_users role cursor batch rows) sent
            (λ last sent'. stream_pages fuel (suc page) (some last) sent')
    ]
  ]

-- The fuel is one more than the rows, since each round but the last sends a user.
unfoldable pub stream_users : Answers → String → Option Uuid → ℕ → List User → Streamed
unfolding stream_pages
stream_users a role cursor size rows =
    stream_pages a role (batch_of size) rows (suc (length rows)) 0 cursor []

unfoldable pub count_users_response : Option String → String → List User → Option ℕ
count_users_response none role rows = some (count_users role rows)
count_users_response (some e) role rows = none
