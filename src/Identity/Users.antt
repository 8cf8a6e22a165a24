-- ===== src/Identity/Users.antt =====
-- services/identity/internal/domain/user.go and repository/user_repository.go: the rows of the
-- table `users` and the statements on them. An id is a number, ordered as the database orders
-- UUIDs; a deleted row keeps its place and has a time of deletion.
use microservices_base_platf.Prelude.{
  ℕ, ◌≡◌, String, Bool, true, false, ◌&&◌, ◌||◌, Option, none, some, List, [], ◌∷◌, ◌++◌, take,
  select, first, length, ltb, ◌==◌, str_eq, is_none, StrictOrder, sort_rows, arith,
}

abbrev pub Uuid : Type 0
Uuid = ℕ

abbrev pub Time : Type 0
Time = ℕ

pub record User : Type 0 where
  pub id : Uuid
  pub email : String
  pub role : String
  pub password_hash : String
  pub name : String
  pub deleted_at : Option Time

pub id_irrefl : (u : User) → ltb u.id u.id ≡ false
id_irrefl u = ground arith

pub id_trans : (u v w : User) → ltb u.id v.id ≡ true → ltb v.id w.id ≡ true → ltb u.id w.id ≡ true
id_trans u v w h k = ground arith

-- `ORDER BY id ASC`.
abbrev pub by_id : StrictOrder User
by_id = record { lt = λ u v. ltb u.id v.id; irrefl = id_irrefl; trans = id_trans }

-- `role = ?`, unless the role is empty.
abbrev pub has_role : String → User → Bool
has_role role u = str_eq role "" || str_eq u.role role

-- The users that a role selects, among those that are not deleted.
abbrev pub is_listed : String → User → Bool
is_listed role u = is_none u.deleted_at && has_role role u

-- `id > ?`, unless there is no cursor.
abbrev pub is_after : Option Uuid → User → Bool
is_after none u = true
is_after (some id) u = ltb id u.id

-- What `ListUsers` would return without a limit.
abbrev pub users_behind : String → Option Uuid → List User → List User
users_behind role cursor rows =
    sort_rows by_id (select (λ u. is_listed role u && is_after cursor u) rows)

unfoldable pub list_users : String → Option Uuid → ℕ → List User → List User
list_users role cursor limit rows = take limit (users_behind role cursor rows)

unfoldable pub count_users : String → List User → ℕ
count_users role rows = length (select (is_listed role) rows)

abbrev pub get_by_email : String → List User → Option User
get_by_email email = first (λ u. str_eq u.email email)

abbrev pub get_by_id : Uuid → List User → Option User
get_by_id id = first (λ u. u.id == id)

abbrev pub create_user : User → List User → List User
create_user u rows = rows ++ u ∷ []
