-- ===== src/Identity/Auth/Rotation.antt =====
-- Which refresh tokens are taken.
use microservices_base_platf.Prelude.{
  ◌≡◌, refl, ap, ◌∙◌, inl, inr, String, Bool, true, false, ◌&&◌, Option, none, some, str_eq,
  str_eq_refl, if◌then◌else◌, Bool-cases,
}
use microservices_base_platf.Identity.Users.{User, get_by_email}
use microservices_base_platf.Identity.Auth.{
  Config, Claims, Library, World, Answers, AuthError, invalid_token, unauthorized, LoginResponse,
  Response, rt_key, try_remove, validated, is_valid, access_claims, refresh_claims, issued, found,
  user_by_text, refresh_by, refresh_with, refresh_token, issued_by_google, created, google_by,
  login_with_google,
}

-- A request that is refused and changes nothing.
abbrev pub IsRefused : World → Response → Type 0
IsRefused w r = ((e : AuthError) × (r ≡ (inl e, w)))

module _ (lib : Library) (cfg : Config) where
  -- A token whose key is not in the cache.
  without_key :
      (b : Answers) (token : String) (c : Claims) (w : World)
      → lib.parse token ≡ some c
      → w.cache (rt_key c.user_id c.jti) ≡ false
      → IsRefused w (refresh_token lib cfg b token w)
  unfolding refresh_token
  without_key b token c w p k = elim (Bool-cases (is_valid lib cfg b.now c)) [
    | inl v ↦ elim (Bool-cases b.cache_get) [
      | inl g ↦ (unauthorized, rw (p, v, g, k) refl)
      | inr g ↦ (unauthorized, rw (p, v, g) refl)
    ]
    | inr v ↦ (invalid_token, rw (p, v) refl)
  ]

  -- Issuing tokens adds no key but the new one.
  issued-cache :
      (a : Answers) (u : User) (access refresh set : Option String) (w : World) (key : String)
      → str_eq key (rt_key (lib.text_of u.id) a.new_jti) ≡ false
      → (issued lib cfg a u access refresh set w).1.cache key ≡ w.cache key
  issued-cache a u none refresh set w key n = refl
  issued-cache a u (some access) none set w key n = refl
  issued-cache a u (some access) (some refresh) (some e) w key n = refl
  issued-cache a u (some access) (some refresh) none w key n = rw n refl

  refresh_by-cache :
      (a : Answers) (o : Option User) (w : World) (key : String)
      → ((u : User) → str_eq key (rt_key (lib.text_of u.id) a.new_jti) ≡ false)
      → (refresh_by lib cfg a o w).1.cache key ≡ w.cache key
  refresh_by-cache a none w key n = refl
  refresh_by-cache a (some u) w key n =
      issued-cache a u (lib.sign (access_claims lib cfg a u))
        (lib.sign (refresh_claims lib cfg a u)) a.cache_set w key (n u)

  removed_key :
      (o : Option String) (key : String) (w : World)
      → o ≡ none
      → (try_remove o key w).cache key ≡ false
  removed_key none key w h = rw (str_eq_refl key) refl
  removed_key (some e) key w h = cc

  -- A refresh that issues tokens has taken the key of the old one away.
  refreshed-cache :
      (a : Answers) (c : Claims) (w : World) (r : LoginResponse)
      → a.cache_delete ≡ none
      → ((u : User) → str_eq (rt_key c.user_id c.jti) (rt_key (lib.text_of u.id) a.new_jti) ≡ false)
      → (refresh_with lib cfg a (some c) w).0 ≡ inr r
      → (refresh_with lib cfg a (some c) w).1.cache (rt_key c.user_id c.jti) ≡ false
  refreshed-cache a c w r d n h = by_guard (a.cache_get && w.cache (rt_key c.user_id c.jti)) h
    where
      by_guard :
          (g : Bool)
          → (if g
              then refresh_by lib cfg a
                  (found lib cfg a.find_user (user_by_text lib cfg c.user_id w.users))
                  (try_remove a.cache_delete (rt_key c.user_id c.jti) w)
              else (inl unauthorized, w)).0
            ≡ inr r
          → (if g
                then refresh_by lib cfg a
                    (found lib cfg a.find_user (user_by_text lib cfg c.user_id w.users))
                    (try_remove a.cache_delete (rt_key c.user_id c.jti) w)
                else (inl unauthorized, w)).1.cache
              (rt_key c.user_id c.jti)
            ≡ false
      by_guard true k =
          refresh_by-cache a (found lib cfg a.find_user (user_by_text lib cfg c.user_id w.users))
            (try_remove a.cache_delete (rt_key c.user_id c.jti) w) (rt_key c.user_id c.jti) n
          ∙ removed_key a.cache_delete (rt_key c.user_id c.jti) w d
      by_guard false k = cc

  key_removed :
      (a : Answers) (token : String) (c : Claims) (w : World) (r : LoginResponse)
      → lib.parse token ≡ some c
      → a.cache_delete ≡ none
      → ((u : User) → str_eq (rt_key c.user_id c.jti) (rt_key (lib.text_of u.id) a.new_jti) ≡ false)
      → (refresh_token lib cfg a token w).0 ≡ inr r
      → (refresh_token lib cfg a token w).1.cache (rt_key c.user_id c.jti) ≡ false
  unfolding refresh_token
  key_removed a token c w r p d n h = elim (Bool-cases (is_valid lib cfg a.now c)) [
    | inl v ↦ rw (verified v) (refreshed-cache a c w r d n (rw (verified v) at h))
    | inr v ↦ absurd (cc (rw (rejected v) at h))
  ]
    where
      verified :
          is_valid lib cfg a.now c ≡ true → validated lib cfg a.now (lib.parse token) ≡ some c
      verified v = ap (validated lib cfg a.now) p ∙ rw v refl

      rejected : is_valid lib cfg a.now c ≡ false → validated lib cfg a.now (lib.parse token) ≡ none
      rejected v = ap (validated lib cfg a.now) p ∙ rw v refl

  google-keys :
      (a : Answers) (o : Option (String × String)) (w : World)
      → (login_with_google lib cfg a o w).1.cache ≡ w.cache
  unfolding login_with_google
  google-keys a none w = refl
  google-keys a (some (email, name)) w =
      by_user (found lib cfg a.find_user (get_by_email email w.users))
    where
      by_tokens :
          (u : User) (access refresh : Option String) (v : World)
          → (issued_by_google lib cfg u access refresh v).1.cache ≡ v.cache
      by_tokens u none refresh v = refl
      by_tokens u (some access) none v = refl
      by_tokens u (some access) (some refresh) v = refl

      by_creation : (o : Option String) (u : User) → (created lib cfg a o u w).1.cache ≡ w.cache
      by_creation none u = by_tokens u _ _ _
      by_creation (some e) u = refl

      by_user : (o : Option User) → (google_by lib cfg a email name o w).1.cache ≡ w.cache
      by_user none = by_creation a.create_user _
      by_user (some u) = by_tokens u _ _ w

  -- The refresh token of a login by Google is a signed one.
  google-token :
      (a : Answers) (o : Option (String × String)) (w : World) (r : LoginResponse)
      → (login_with_google lib cfg a o w).0 ≡ inr r
      → (u : User) × (lib.sign (refresh_claims lib cfg a u) ≡ some r.refresh_token)
  unfolding login_with_google
  google-token a none w r h = cc
  google-token a (some (email, name)) w r h =
      by_user (found lib cfg a.find_user (get_by_email email w.users)) h
    where
      by_tokens :
          (u : User) (access refresh : Option String) (v : World)
          → (issued_by_google lib cfg u access refresh v).0 ≡ inr r
          → refresh ≡ some r.refresh_token
      by_tokens u none refresh v h = cc
      by_tokens u (some access) none v h = cc
      by_tokens u (some access) (some refresh) v h = cc

      by_creation :
          (o : Option String) (u : User)
          → (created lib cfg a o u w).0 ≡ inr r
          → (u : User) × (lib.sign (refresh_claims lib cfg a u) ≡ some r.refresh_token)
      by_creation none u h = (u, by_tokens u _ _ _ h)
      by_creation (some e) u h = cc

      by_user :
          (o : Option User)
          → (google_by lib cfg a email name o w).0 ≡ inr r
          → (u : User) × (lib.sign (refresh_claims lib cfg a u) ≡ some r.refresh_token)
      by_user none h = by_creation a.create_user _ h
      by_user (some u) h = (u, by_tokens u _ _ w h)

-- A refresh token works once: after a refresh that succeeded and reached the cache, a second one
-- with the same token is refused whatever answers it meets, and changes nothing, if the new token's
-- id is a new one.
pub refresh_token-once :
    (lib : Library) (cfg : Config) (a b : Answers) (token : String) (c : Claims) (w : World)
    (r : LoginResponse)
    → lib.parse token ≡ some c
    → a.cache_delete ≡ none
    → ((u : User) → str_eq (rt_key c.user_id c.jti) (rt_key (lib.text_of u.id) a.new_jti) ≡ false)
    → (refresh_token lib cfg a token w).0 ≡ inr r
    → IsRefused
        (refresh_token lib cfg a token w).1
        (refresh_token lib cfg b token (refresh_token lib cfg a token w).1)
refresh_token-once lib cfg a b token c w r p d n h =
    without_key lib cfg b token c _ p (key_removed lib cfg a token c w r p d n h)

-- The refresh token that a login by Google returns is of no use: every refresh with it is refused,
-- whatever answers it meets, and changes nothing, if the token's id is a new one and a signed token
-- can be read back.
pub login_with_google_strands :
    (lib : Library) (cfg : Config) (a b : Answers) (profile : Option (String × String)) (w : World)
    (r : LoginResponse)
    → ((c : Claims) (t : String) → lib.sign c ≡ some t → lib.parse t ≡ some c)
    → ((u : User) → w.cache (rt_key (lib.text_of u.id) a.new_jti) ≡ false)
    → (login_with_google lib cfg a profile w).0 ≡ inr r
    → IsRefused
        (login_with_google lib cfg a profile w).1
        (refresh_token lib cfg b r.refresh_token (login_with_google lib cfg a profile w).1)
login_with_google_strands lib cfg a b profile w r law fresh h =
    let (u, signed) = google-token lib cfg a profile w r h in
    let c = refresh_claims lib cfg a u in
    without_key lib cfg b r.refresh_token c _ (law c r.refresh_token signed)
      (ap (λ f. f (rt_key c.user_id c.jti)) (google-keys lib cfg a profile w) ∙ fresh u)
