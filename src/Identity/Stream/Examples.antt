-- ===== src/Identity/Stream/Examples.antt =====
-- A stream of users at a concrete input.
use microservices_base_platf.Prelude.{
  String, false, Option, none, some, List, [], ◌∷◌, ◌==◌, if◌then◌else◌, Distinct, arith,
}
use microservices_base_platf.Identity.Users.{Uuid, Time, User}
use microservices_base_platf.Identity.Stream.{Answers, record_of, stream_users}
use microservices_base_platf.Identity.Stream.Complete.{id_of, IsPart, stream_users-IsPart}

abbrev row : Uuid → String → Option Time → User
row id role deleted_at = record {
  id = id;
  email = "a@b.c";
  role = role;
  password_hash = "";
  name = "A";
  deleted_at = deleted_at;
}

-- Out of order, with a deleted row and one of another role.
abbrev rows : List User
rows =
    row 5 "user" none
    ∷ row 2 "user" none
    ∷ row 4 "admin" none
    ∷ row 3 "user" none
    ∷ row 6 "user" (some 1)
    ∷ row 1 "user" none
    ∷ []

-- The client is gone at the user 5.
abbrev answers : Answers
answers = record {
  cancelled_at = λ n. false;
  list = λ n. none;
  send = λ id. if id == 5 then some "gone" else none;
}

distinct : Distinct id_of rows
distinct = ground arith

stream_users-IsPart_example :
    IsPart answers
      (record_of (row 2 "user" none)
        ∷ record_of (row 3 "user" none)
        ∷ record_of (row 5 "user" none)
        ∷ [])
      (stream_users answers "user" (some 1) 2 rows)
stream_users-IsPart_example = stream_users-IsPart answers "user" (some 1) 2 rows distinct
