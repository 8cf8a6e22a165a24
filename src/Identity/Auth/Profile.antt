-- ===== src/Identity/Auth/Profile.antt =====
-- services/identity/internal/service/auth_service.go, `GetProfile`.
use microservices_base_platf.Prelude.{String, Option, none, some, ◌⊎◌, inl, inr}
use microservices_base_platf.Identity.Users.{User}
use microservices_base_platf.Identity.Auth.{
  Config, Library, World, AuthError, UserResponse, found, user_by_text, user_response,
}

module _ (lib : Library) (cfg : Config) where
  abbrev pub profile_by : Option User → AuthError ⊎ UserResponse
  profile_by none = inl AuthError.user_not_found
  profile_by (some u) = inr (user_response lib cfg u)

  unfoldable pub get_profile : Option String → String → World → AuthError ⊎ UserResponse
  get_profile query id w = profile_by (found lib cfg query (user_by_text lib cfg id w.users))
