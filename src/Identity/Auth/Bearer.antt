-- ===== src/Identity/Auth/Bearer.antt =====
-- The access token of a login, in the header of a request.
use microservices_base_platf.Prelude.{
  ℕ, ◌+◌, ◌*◌, ◌<◌, ◌≡◌, ◌≢◌, refl, sym, ap, subst, ◌∙◌, String, Bool, true, false, Option, none,
  some, ◌⊎◌, inl, inr, [], ◌∷◌, ◌++◌, ◌==◌, eqb_iff, All, if◌then◌else◌, Bool-cases, arith,
  str_eq_refl,
}
use microservices_base_platf.Platform.Text.{Bytes, bytes_eq, split}
use microservices_base_platf.Identity.Users.{Time, User, get_by_email}
use microservices_base_platf.Identity.Auth.{
  Config, Claims, Library, World, Answers, AuthError, LoginResponse, is_valid, access_claims,
  issued, issue, login_by, found, login,
}
use microservices_base_platf.Identity.Auth.Middleware.{
  lower, to_lower, bearer, extract_token, authenticate, require_auth,
}

-- A text without spaces.
abbrev pub IsWord : Bytes → Type 0
IsWord = All (λ b. (b == b' ') ≡ false)

split-word : (w : Bytes) → IsWord w → split b' ' w ≡ w ∷ []
unfolding split
split-word [] h = refl
split-word (b ∷ w) h = rw (h.0, split-word w h.1) refl

split-two_words : (v w : Bytes) → IsWord v → IsWord w → split b' ' (v ++ b' ' ∷ w) ≡ v ∷ w ∷ []
unfolding split
split-two_words [] w h k = ap (λ ws. [] ∷ ws) (split-word w k)
split-two_words (b ∷ v) w h k = rw (h.0, split-two_words v w h.1 k) refl

bytes_eq_sound : (v w : Bytes) → bytes_eq v w ≡ true → v ≡ w
unfolding bytes_eq
bytes_eq_sound [] [] h = refl
bytes_eq_sound [] (c ∷ w) h = cc
bytes_eq_sound (b ∷ v) [] h = cc
bytes_eq_sound (b ∷ v) (c ∷ w) h = elim (Bool-cases (b == c)) [
  | inl e ↦ let same = (eqb_iff b c).0 e in let rest = bytes_eq_sound v w (rw e at h) in cc
  | inr e ↦ absurd (ground (arith, e, h))
]

lower-space : (b : ℕ) → (lower b == b' ') ≡ false → (b == b' ') ≡ false
lower-space b h = ground (arith, h)

lower-IsWord : (w : Bytes) → IsWord (to_lower w) → IsWord w
lower-IsWord [] h = tt
lower-IsWord (b ∷ w) h = (lower-space b h.0, lower-IsWord w h.1)

extract-bearer :
    (scheme token : Bytes)
    → bytes_eq (to_lower scheme) bearer ≡ true
    → IsWord token
    → extract_token (scheme ++ b' ' ∷ token) ≡ token
unfolding extract_token
extract-bearer scheme token h k =
    let word = lower-IsWord scheme (
      subst IsWord (sym (bytes_eq_sound _ _ h))
        (refl, (refl, (refl, (refl, (refl, (refl, tt))))))) in
    rw (split-two_words scheme token word k, h) refl

-- What the issued response of a login names: the user, and a token that was signed with the access
-- claims.
abbrev IsIssued : Library → Config → Answers → LoginResponse → Type 0
IsIssued lib cfg a r =
    (u : User) × (r.user.id ≡ u.id)
    × (r.user.role ≡ u.role)
    × (lib.sign (access_claims lib cfg a u) ≡ some r.access_token)

module _ (lib : Library) (cfg : Config) (a : Answers) where
  issued-IsIssued :
      (u : User) (x y set : Option String) (w : World) (r : LoginResponse)
      → lib.sign (access_claims lib cfg a u) ≡ x
      → (issued lib cfg a u x y set w).0 ≡ inr r
      → IsIssued lib cfg a r
  issued-IsIssued u none y set w r e h = cc
  issued-IsIssued u (some t) none set w r e h = cc
  issued-IsIssued u (some t) (some v) (some f) w r e h = cc
  issued-IsIssued u (some t) (some v) none w r e h = (
    u,
    ap (λ z. id_in z) (sym h),
    ap (λ z. role_in z) (sym h),
    e ∙ ap (λ z. token_in_response z) h,
  )
    where
      id_in : AuthError ⊎ LoginResponse → ℕ
      id_in (inl f) = 0
      id_in (inr z) = z.user.id

      role_in : AuthError ⊎ LoginResponse → String
      role_in (inl f) = ""
      role_in (inr z) = z.user.role

      token_in_response : AuthError ⊎ LoginResponse → Option String
      token_in_response (inl f) = none
      token_in_response (inr z) = some z.access_token

  login-IsIssued :
      (email password : String) (w : World) (r : LoginResponse)
      → (login lib cfg a email password w).0 ≡ inr r
      → IsIssued lib cfg a r
  unfolding login
  login-IsIssued email password w r h =
      by_user (found lib cfg a.find_user (get_by_email email w.users)) h
    where
      by_hash :
          (u : User) (b : Bool)
          → (if b then issue lib cfg a u w else (inl AuthError.unauthorized, w)).0 ≡ inr r
          → IsIssued lib cfg a r
      by_hash u true k = issued-IsIssued u _ _ _ w r refl k
      by_hash u false k = cc

      by_user :
          (o : Option User) → (login_by lib cfg a password o w).0 ≡ inr r → IsIssued lib cfg a r
      by_user none k = cc
      by_user (some u) k = by_hash u (lib.compare_hash u.password_hash password) k

authenticate-token :
    (lib : Library) (cfg : Config) (text : Bytes → String) (now : Time) (token : Bytes) (c : Claims)
    → token ≢ []
    → lib.parse (text token) ≡ some c
    → is_valid lib cfg now c ≡ true
    → authenticate lib cfg text now token ≡ inr c
authenticate-token lib cfg text now [] c n p v = absurd (n refl)
authenticate-token lib cfg text now (b ∷ bs) c n p v = rw (p, v) refl

-- If a token can be parsed back after it was signed, and is a text without spaces that is not empty,
-- then the access token of a login that succeeded, behind the scheme "bearer" in any case, opens
-- requests for as long as its lifespan says: the handler gets the id and the role of the user who
-- logged in. What the cache holds by then, such as a logout's entry for this token, makes no
-- difference.
pub require_auth-login :
    (lib : Library) (cfg : Config) (text : Bytes → String) (bytes : String → Bytes) (a : Answers)
    (email password : String) (w : World) (r : LoginResponse) (now : Time) (scheme : Bytes)
    → ((c : Claims) (t : String)
        → lib.sign c ≡ some t
        → (lib.parse t ≡ some c) × (text (bytes t) ≡ t) × IsWord (bytes t) × (bytes t ≢ []))
    → bytes_eq (to_lower scheme) bearer ≡ true
    → (login lib cfg a email password w).0 ≡ inr r
    → now < a.now + cfg.access_token_lifespan * 3600
    → (c : Claims) × (require_auth lib cfg text now (scheme ++ b' ' ∷ bytes r.access_token) ≡ inr c)
      × (c.user_id ≡ lib.text_of r.user.id)
      × (c.role ≡ r.user.role)
unfolding require_auth
require_auth-login lib cfg text bytes a email password w r now scheme signed s h l =
    let (u, i, o, t) = login-IsIssued lib cfg a email password w r h in
    let (p, back, word, some_byte) = signed _ _ t in
    (
      access_claims lib cfg a u,
      ap (authenticate lib cfg text now) (extract-bearer scheme (bytes r.access_token) s word)
          ∙ authenticate-token lib cfg text now (bytes r.access_token) _ some_byte
              (ap lib.parse back ∙ p) (rw (str_eq_refl cfg.issuer) (ground (arith, l))),
      ap lib.text_of (sym i),
      sym o,
    )
