-- ===== src/Identity/Auth/Examples.antt =====
-- Refresh tokens at concrete inputs.
use microservices_base_platf.Prelude.{
  ℕ, ◌≡◌, ◌≢◌, ◌++◌, refl, sym, ap, subst, ◌∙◌, inl, inr, String, Bool, true, ◌&&◌, none, some, [],
  ◌∷◌, ◌==◌, str_eq, str_eq_iff, eqb_iff, if◌then◌else◌, Bool-cases, arith,
}
use microservices_base_platf.Identity.Users.{User}
use microservices_base_platf.Identity.Auth.{
  Config, Claims, Library, World, Answers, LoginResponse, refresh_token, login, login_with_google,
}
use microservices_base_platf.Platform.Text.{Bytes, bytes_eq}
use microservices_base_platf.Identity.Auth.Middleware.{bearer, to_lower, require_auth}
use microservices_base_platf.Identity.Auth.Bearer.{IsWord, require_auth-login}
use microservices_base_platf.Identity.Auth.Rotation.{
  IsRefused, refresh_token-once, login_with_google_strands,
}

abbrev config : Config
config = record { issuer = "identity"; access_token_lifespan = 1; refresh_token_lifespan = 24 }

abbrev claims : String → ℕ → Claims
claims jti expires_at = record {
  user_id = "1";
  role = "user";
  jti = jti;
  issuer = "identity";
  expires_at = expires_at;
}

same : Claims → Claims → Bool
same c d =
    str_eq c.user_id d.user_id
    && (str_eq c.role d.role
        && (str_eq c.jti d.jti && (str_eq c.issuer d.issuer && c.expires_at == d.expires_at)))

same_sound : (c d : Claims) → same c d ≡ true → c ≡ d
unfolding same
same_sound c d h =
    let a = (str_eq_iff c.user_id d.user_id).0 (ground (arith, h)) in
    let b = (str_eq_iff c.role d.role).0 (ground (arith, h)) in
    let e = (str_eq_iff c.jti d.jti).0 (ground (arith, h)) in
    let f = (str_eq_iff c.issuer d.issuer).0 (ground (arith, h)) in
    let g = (eqb_iff c.expires_at d.expires_at).0 (ground (arith, h)) in cc

-- Signs the tokens of one login at the time 100.
abbrev library : Library
library = record {
  sign = λ c.
      if same c (claims "" 3700)
      then some "A"
      else if same c (claims "new" 86500)
      then some "R"
      else none;
  parse = λ t.
      if str_eq t "A"
      then some (claims "" 3700)
      else if str_eq t "R"
      then some (claims "new" 86500)
      else if str_eq t "old"
      then some (claims "old" 500)
      else none;
  hash = λ p. some p;
  compare_hash = λ h p. str_eq h p;
  text_of = λ id. "1";
}

signed :
    (a t : String) (c d : Claims)
    → some a ≡ some t
    → same c d ≡ true
    → library.parse a ≡ some d
    → library.parse t ≡ some c
signed a t c d h e p =
    let here : a ≡ t = cc in
    let whose : c ≡ d = same_sound c d e in
    subst (λ x. library.parse x ≡ some c) here (p ∙ ap some (sym whose))

law : (c : Claims) (t : String) → library.sign c ≡ some t → library.parse t ≡ some c
law c t h = elim (Bool-cases (same c (claims "" 3700))) [
  | inl e ↦ signed "A" t c (claims "" 3700) (rw e at h) e refl
  | inr e ↦ elim (Bool-cases (same c (claims "new" 86500))) [
    | inl f ↦ signed "R" t c (claims "new" 86500) (rw (e, f) at h) f refl
    | inr f ↦ cc (rw (e, f) at h)
  ]
]

abbrev answers : Answers
answers = record {
  now = 100;
  new_id = 1;
  new_jti = "new";
  find_user = none;
  create_user = none;
  cache_get = true;
  cache_set = none;
  cache_delete = none;
  last_delete = none;
}

abbrev user : User
user = record {
  id = 1;
  email = "a@b.c";
  role = "user";
  password_hash = "p";
  name = "A";
  deleted_at = none;
}

abbrev world : World
world = record { users = user ∷ []; cache = λ k. str_eq k "rt:1:old" }

abbrev response : LoginResponse
response = record {
  access_token = "A";
  refresh_token = "R";
  user = record { id = 1; email = "a@b.c"; name = "A"; role = "user" };
}

refreshed : (refresh_token library config answers "old" world).0 ≡ inr response
unfolding refresh_token same
refreshed = refl

refresh_token-once_example : IsRefused (refresh_token library config answers "old" world).1 (
    refresh_token library config answers "old" (refresh_token library config answers "old" world).1)
refresh_token-once_example =
    refresh_token-once library config answers answers "old" (claims "old" 500) world response refl
      refl (λ u. refl) refreshed

by_google :
    (login_with_google library config answers (some ("a@b.c", "A")) world).0
    ≡ inr (record response { user = record response.user { role = "" } })
unfolding login_with_google same
by_google = refl

login_with_google_strands_example :
    IsRefused (login_with_google library config answers (some ("a@b.c", "A")) world).1 (
      refresh_token library config answers "R"
        (login_with_google library config answers (some ("a@b.c", "A")) world).1)
login_with_google_strands_example =
    login_with_google_strands library config answers answers (some ("a@b.c", "A")) world
      (record response { user = record response.user { role = "" } }) law (λ u. refl) by_google

abbrev bytes : String → Bytes
bytes s = if str_eq s "A" then b'A' ∷ [] else b'R' ∷ []

abbrev text : Bytes → String
text bs = if bytes_eq bs (b'A' ∷ []) then "A" else "R"

-- Both tokens are words.
words :
    (c : Claims) (t : String)
    → library.sign c ≡ some t
    → (text (bytes t) ≡ t) × IsWord (bytes t) × (bytes t ≢ [])
unfolding bytes_eq
words c t h = elim (Bool-cases (same c (claims "" 3700))) [
  | inl e ↦ of_token "A" t (rw e at h) (refl, (refl, tt), λ q. cc)
  | inr e ↦ elim (Bool-cases (same c (claims "new" 86500))) [
    | inl f ↦ of_token "R" t (rw (e, f) at h) (refl, (refl, tt), λ q. cc)
    | inr f ↦ cc (rw (e, f) at h)
  ]
]
  where
    of_token :
        (s u : String)
        → some s ≡ some u
        → (text (bytes s) ≡ s) × IsWord (bytes s) × (bytes s ≢ [])
        → (text (bytes u) ≡ u) × IsWord (bytes u) × (bytes u ≢ [])
    of_token s u e =
        let here : s ≡ u = cc in
        subst (λ x. (text (bytes x) ≡ x) × IsWord (bytes x) × (bytes x ≢ [])) here

logged_in : (login library config answers "a@b.c" "p" world).0 ≡ inr response
unfolding login same
logged_in = refl

abbrev scheme : Bytes
scheme = b'B' ∷ b'e' ∷ b'a' ∷ b'r' ∷ b'e' ∷ b'r' ∷ []

is_bearer : bytes_eq (to_lower scheme) bearer ≡ true
unfolding bytes_eq
is_bearer = refl

require_auth-login_example :
    (c : Claims) × (require_auth library config text 3000 (scheme ++ b' ' ∷ bytes "A") ≡ inr c)
    × (c.user_id ≡ "1")
    × (c.role ≡ "user")
require_auth-login_example =
    require_auth-login library config text bytes answers "a@b.c" "p" world response 3000 scheme
      (λ c t h. let (e, f, g) = words c t h in (law c t h, e, f, g)) is_bearer logged_in
      (omega arith)
