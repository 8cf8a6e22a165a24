-- ===== src/Identity/Auth.antt =====
-- services/identity/internal/service/auth_service.go and pkg/auth/jwt.go: login, the rotation of
-- refresh tokens, and logout. Signing, hashing and Google's answers come from libraries.
pub mod Rotation
pub mod Middleware
pub mod Bearer
pub mod Profile
mod Examples
use Prim.Native.String.{◌++◌ as concat}
use microservices_base_platf.Prelude.{
  ℕ, ◌+◌, ◌*◌, String, Bool, true, false, not, ◌&&◌, ◌||◌, Option, none, some, ◌⊎◌, inl, inr, List,
  [], ◌∷◌, ◌++◌, first, ltb, leb, str_eq, if◌then◌else◌,
}
use microservices_base_platf.Identity.Users.{Uuid, Time, User, create_user, get_by_email}

pub record Config : Type 0 where
  pub issuer : String
  pub access_token_lifespan : ℕ
  pub refresh_token_lifespan : ℕ

pub record Claims : Type 0 where
  pub user_id : String
  pub role : String
  pub jti : String
  pub issuer : String
  pub expires_at : Time

-- The signature and its check, the hash of passwords, and the text of an id.
pub record Library : Type 0 where
  pub sign : Claims → Option String
  pub parse : String → Option Claims
  pub hash : String → Option String
  pub compare_hash : String → String → Bool
  pub text_of : Uuid → String

-- The keys that the cache holds.
pub record World : Type 0 where
  pub users : List User
  pub cache : String → Bool

-- `last_delete` is the answer to the second deletion of a logout.
pub record Answers : Type 0 where
  pub now : Time
  pub new_id : Uuid
  pub new_jti : String
  pub find_user : Option String
  pub create_user : Option String
  pub cache_get : Bool
  pub cache_set : Option String
  pub cache_delete : Option String
  pub last_delete : Option String

-- `panicked` stands for the use of a nil pointer.
pub data AuthError : Type 0 where
  invalid_token unauthorized user_not_found sign_failed google_failed panicked : AuthError
  create_failed cache_failed : String → AuthError

pub record UserResponse : Type 0 where
  pub id : Uuid
  pub email : String
  pub name : String
  pub role : String

pub record LoginResponse : Type 0 where
  pub access_token : String
  pub refresh_token : String
  pub user : UserResponse

abbrev pub Response : Type 0
Response = (AuthError ⊎ LoginResponse) × World

abbrev pub rt_key : String → String → String
rt_key user jti = concat "rt:" (concat user (concat ":" jti))

abbrev pub blacklist_key : String → String
blacklist_key token = concat "blacklist:" token

abbrev pub put : String → World → World
put key w = record w { cache = λ k. str_eq k key || w.cache k }

abbrev pub remove : String → World → World
remove key w = record w { cache = λ k. not (str_eq k key) && w.cache k }

-- A deletion whose error is left aside.
abbrev pub try_remove : Option String → String → World → World
try_remove none key w = remove key w
try_remove (some e) key w = w

module _ (lib : Library) (cfg : Config) where
  -- The checks of `ParseWithClaims`: the issuer, if one is configured, and the time.
  abbrev pub is_valid : Time → Claims → Bool
  is_valid now c = (str_eq cfg.issuer "" || str_eq c.issuer cfg.issuer) && ltb now c.expires_at

  abbrev pub validated : Time → Option Claims → Option Claims
  validated now none = none
  validated now (some c) = if is_valid now c then some c else none

  -- `VerifyToken`.
  abbrev pub verify_token : Time → String → Option Claims
  verify_token now token = validated now (lib.parse token)

  abbrev pub access_claims : Answers → User → Claims
  access_claims a u = record {
    user_id = lib.text_of u.id;
    role = u.role;
    jti = "";
    issuer = cfg.issuer;
    expires_at = a.now + cfg.access_token_lifespan * 3600;
  }

  abbrev pub refresh_claims : Answers → User → Claims
  refresh_claims a u = record {
    user_id = lib.text_of u.id;
    role = u.role;
    jti = a.new_jti;
    issuer = cfg.issuer;
    expires_at = a.now + cfg.refresh_token_lifespan * 3600;
  }

  abbrev pub user_response : User → UserResponse
  user_response u = record { id = u.id; email = u.email; name = u.name; role = u.role }

  -- The tokens, and the key of the refresh token in the cache.
  abbrev pub issued :
      Answers → User → Option String → Option String → Option String → World → Response
  issued a u none refresh set w = (inl sign_failed, w)
  issued a u (some access) none set w = (inl sign_failed, w)
  issued a u (some access) (some refresh) (some e) w = (inl (cache_failed e), w)
  issued a u (some access) (some refresh) none w = (
    inr (record { access_token = access; refresh_token = refresh; user = user_response u }),
    put (rt_key (lib.text_of u.id) a.new_jti) w,
  )

  abbrev pub issue : Answers → User → World → Response
  issue a u w =
      issued a u (lib.sign (access_claims a u)) (lib.sign (refresh_claims a u)) a.cache_set w

  abbrev pub login_by : Answers → String → Option User → World → Response
  login_by a password none w = (inl user_not_found, w)
  login_by a password (some u) w =
      if lib.compare_hash u.password_hash password then issue a u w else (inl unauthorized, w)

  abbrev pub found {ℓ} : {A : Type ℓ} → Option String → Option A → Option A
  found none o = o
  found (some e) o = none

  -- `Login`.
  unfoldable pub login : Answers → String → String → World → Response
  login a email password w = login_by a password (found a.find_user (get_by_email email w.users)) w

  abbrev pub user_by_text : String → List User → Option User
  user_by_text id = first (λ u. str_eq (lib.text_of u.id) id)

  abbrev pub refresh_by : Answers → Option User → World → Response
  refresh_by a none w = (inl user_not_found, w)
  refresh_by a (some u) w = issue a u w

  -- A token whose key is in the cache loses it before new ones are issued.
  abbrev pub refresh_with : Answers → Option Claims → World → Response
  refresh_with a none w = (inl invalid_token, w)
  refresh_with a (some c) w =
      if a.cache_get && w.cache (rt_key c.user_id c.jti)
      then refresh_by a (found a.find_user (user_by_text c.user_id w.users))
          (try_remove a.cache_delete (rt_key c.user_id c.jti) w)
      else (inl unauthorized, w)

  -- `RefreshToken`.
  unfoldable pub refresh_token : Answers → String → World → Response
  refresh_token a token w = refresh_with a (verify_token a.now token) w

  -- The tokens of a login by Google; the response leaves the role out.
  abbrev pub issued_by_google : User → Option String → Option String → World → Response
  issued_by_google u none refresh w = (inl sign_failed, w)
  issued_by_google u (some access) none w = (inl sign_failed, w)
  issued_by_google u (some access) (some refresh) w = (
    inr (record {
      access_token = access;
      refresh_token = refresh;
      user = record (user_response u) { role = "" };
    }),
    w,
  )

  abbrev pub issue_by_google : Answers → User → World → Response
  issue_by_google a u w =
      issued_by_google u (lib.sign (access_claims a u)) (lib.sign (refresh_claims a u)) w

  abbrev pub google_user : Answers → String → String → User
  google_user a email name = record {
    id = a.new_id;
    email = email;
    role = "user";
    password_hash = "";
    name = name;
    deleted_at = none;
  }

  abbrev pub created : Answers → Option String → User → World → Response
  created a none u w = issue_by_google a u (record w { users = create_user u w.users })
  created a (some e) u w = (inl (create_failed e), w)

  abbrev pub google_by : Answers → String → String → Option User → World → Response
  google_by a email name (some u) w = issue_by_google a u w
  google_by a email name none w = created a a.create_user (google_user a email name) w

  abbrev pub google_with : Answers → Option (String × String) → World → Response
  google_with a none w = (inl google_failed, w)
  google_with a (some (email, name)) w =
      google_by a email name (found a.find_user (get_by_email email w.users)) w

  -- `LoginWithGoogle`, by the profile that Google returns.
  unfoldable pub login_with_google : Answers → Option (String × String) → World → Response
  login_with_google a profile w = google_with a profile w

  abbrev pub closed : Option String → String → World → Option AuthError × World
  closed none key w = (none, remove key w)
  closed (some e) key w = (some (cache_failed e), w)

  abbrev pub try_put : Option String → String → World → World
  try_put none key w = put key w
  try_put (some e) key w = w

  -- After the first deletion, the claims of the access token are used without a check.
  abbrev pub logout_with :
      Answers → String → Option Claims → Option Claims → World → Option AuthError × World
  logout_with a token access none w = (some invalid_token, w)
  logout_with a token none (some r) w =
      (some panicked, try_remove a.cache_delete (rt_key r.user_id r.jti) w)
  logout_with a token (some c) (some r) w =
      let key = rt_key r.user_id r.jti in
      let w' = try_remove a.cache_delete key w in
      closed a.last_delete key
        (if ltb a.now c.expires_at then try_put a.cache_set (blacklist_key token) w' else w')

  -- `Logout`.
  unfoldable pub logout : Answers → String → String → World → Option AuthError × World
  logout a access refresh w =
      logout_with a access (verify_token a.now access) (verify_token a.now refresh) w

  abbrev pub registered :
      Answers → Option String → Option String → String → String → World → (AuthError ⊎ Uuid) × World
  registered a none create email name w = (inl sign_failed, w)
  registered a (some hash) (some e) email name w = (inl (create_failed e), w)
  registered a (some hash) none email name w = (
    inr a.new_id,
    record w {
      users =
          create_user
            (record {
              id = a.new_id;
              email = email;
              role = "user";
              password_hash = hash;
              name = name;
              deleted_at = none;
            })
            w.users;
    },
  )

  -- `Register`; the role is the default of the column.
  unfoldable pub register : Answers → String → String → String → World → (AuthError ⊎ Uuid) × World
  register a email password name w = registered a (lib.hash password) a.create_user email name w
