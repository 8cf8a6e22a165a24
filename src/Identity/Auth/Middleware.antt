-- ===== src/Identity/Auth/Middleware.antt =====
-- pkg/auth/middleware.go, context.go and `ExtractToken` of jwt.go: a request shows its token in the
-- header Authorization. A header is its bytes; ToLower is that of ASCII letters, which decides
-- about "bearer".
use microservices_base_platf.Prelude.{
  ℕ, ◌+◌, ◌&&◌, String, Option, none, some, ◌⊎◌, inl, inr, List, [], ◌∷◌, map, leb, if◌then◌else◌,
}
use microservices_base_platf.Platform.Errors.{AppError, unauthorized}
use microservices_base_platf.Platform.Text.{Bytes, bytes_eq, split}
use microservices_base_platf.Identity.Users.{Time}
use microservices_base_platf.Identity.Auth.{Config, Claims, Library, verify_token}

abbrev pub lower : ℕ → ℕ
lower b = if leb b'A' b && leb b b'Z' then b + 32 else b

-- `strings.ToLower`.
abbrev pub to_lower : Bytes → Bytes
to_lower = map lower

abbrev pub bearer : Bytes
bearer = b'b' ∷ b'e' ∷ b'a' ∷ b'r' ∷ b'e' ∷ b'r' ∷ []

-- Two parts, the first of them the scheme.
abbrev pub token_in : List Bytes → Bytes
token_in [] = []
token_in (p ∷ []) = []
token_in (p ∷ t ∷ []) = if bytes_eq (to_lower p) bearer then t else []
token_in (p ∷ t ∷ q ∷ rest) = []

-- `ExtractToken`; an empty header has no two parts.
unfoldable pub extract_token : Bytes → Bytes
unfolding split
extract_token header = token_in (split b' ' header)

module _ (lib : Library) (cfg : Config) (text : Bytes → String) where
  abbrev pub with_claims : Option Claims → AppError ⊎ Claims
  with_claims none = inl unauthorized
  with_claims (some c) = inr c

  abbrev pub authenticate : Time → Bytes → AppError ⊎ Claims
  authenticate now [] = inl unauthorized
  authenticate now (b ∷ bs) = with_claims (verify_token lib cfg now (text (b ∷ bs)))

  -- `GinRequireAuth`, and `RequireAuth`, which differ in the text of the error: the error that
  -- aborts the request, or the claims that `WithUser` puts into its context.
  unfoldable pub require_auth : Time → Bytes → AppError ⊎ Claims
  unfolding extract_token
  require_auth now header = authenticate now (extract_token header)
