-- ===== src/Auth/Middleware.antt =====
-- internal/auth/middleware.go: from the incoming metadata to an identity, and the interceptors. Log
-- lines are left out.
pub mod Bearer
pub mod Gate
use build_api.Common.{
  ℕ, String, ◌==◌, Bool, true, false, not, ◌&&◌, ◌||◌, Option, none, some, List, [], ◌∷◌, Result,
  ok, err, if◌then◌else◌,
}
use build_api.Status.{Status, status_error, unauthenticated}
use build_api.Text.{split, cut_prefix, has_prefix, trim_space}
use build_api.World.External.{Environment, Claims}
use build_api.World.Effect.{World, Action, ◌>>=◌, ◌>>◌, pure, fail_if, or_fail, branch}
use build_api.Auth.Context.{Context, Principal, with_principal}
use build_api.Auth.Scopes.{has_scope, public_methods, enforce_access}
use build_api.Auth.Keys.{lookup_api_key}
use build_api.Auth.Jwt.{validate_access_token}

abbrev three_parts : List String → Bool
three_parts (a ∷ b ∷ c ∷ []) = not (a == "") && not (b == "") && not (c == "")
three_parts _ = false

-- `looksLikeJWT`
unfoldable pub looks_like_jwt : String → Bool
looks_like_jwt token = three_parts (split token b'.')

abbrev pub missing_header : Status
missing_header = status_error unauthenticated "missing or invalid authorization header"

abbrev pub missing_metadata : Status
missing_metadata = status_error unauthenticated "missing metadata"

abbrev pub bad_token : Status
bad_token = status_error unauthenticated "invalid or expired token"

abbrev bearer_part : Option String → String
bearer_part none = ""
bearer_part (some s) = trim_space s

-- One round of the loop of `extractBearerToken`: the token, or "" for `continue`. An empty rest
-- of the header is empty after trimming too.
unfoldable pub bearer : String → String
bearer v = bearer_part (cut_prefix (trim_space v) "Bearer ")

unfoldable pub first_bearer : List String → Result Status String
first_bearer [] = err missing_header
first_bearer (v ∷ vals) = if bearer v == "" then first_bearer vals else ok (bearer v)

abbrev bearer_of : Option (String → List String) → Result Status String
bearer_of none = err missing_metadata
bearer_of (some md) = first_bearer (md "authorization")

-- `extractBearerToken`
unfoldable pub extract_bearer_token : Context → Result Status String
extract_bearer_token ctx = bearer_of ctx.metadata

abbrev session_of : Result String Claims → Result Status Principal
session_of (err e) = err bad_token
session_of (ok claims) = ok (record { user_id = claims.user_id; full_access = true; scopes = [] })

abbrev key_holder_of : Result String (String × List String) → Result Status Principal
key_holder_of (err e) = err bad_token
key_holder_of (ok (user_id, scopes)) =
    ok (record { user_id = user_id; full_access = false; scopes = scopes })

module _ {K Q : Type 0} (env : Environment K Q) (secret : String) where
  -- `authenticate`
  unfoldable pub authenticate : String → Action K Principal
  authenticate token =
      branch (looks_like_jwt token)
        (do claims ← validate_access_token env secret token; or_fail (session_of claims) (λ s. s))
        (do
          fail_if (not (has_prefix token "bh_")) bad_token
          found ← lookup_api_key env token
          or_fail (key_holder_of found) (λ s. s))

  -- `UnaryServerInterceptor`
  unfoldable pub unary_server_interceptor :
      {Req Resp : Type 0} → Context → Req → String → (Context → Req → Action K Resp) → Action K Resp
  unary_server_interceptor ctx req full_method handler =
      branch (has_scope public_methods full_method) (handler ctx req) (do
        token ← or_fail (extract_bearer_token ctx) (λ s. s)
        p ← authenticate token
        or_fail (enforce_access full_method p) (λ s. s)
        handler (with_principal ctx p) req)

  -- `StreamServerInterceptor`: the stream's context is the one that its handler reads.
  unfoldable pub stream_server_interceptor :
      Context → String → (Context → Action K (Unit {0})) → Action K (Unit {0})
  stream_server_interceptor ctx full_method handler =
      branch (has_scope public_methods full_method) (handler ctx) (do
        token ← or_fail (extract_bearer_token ctx) (λ s. s)
        p ← authenticate token
        or_fail (enforce_access full_method p) (λ s. s)
        handler (with_principal ctx p))
