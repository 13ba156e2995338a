-- ===== src/Auth/Jwt.antt =====
-- internal/auth/jwt.go: session tokens. The library signs and parses; the manager's own checks are
-- the key function, the claims and the token's type.
pub mod Apart
use build_api.Common.{
  ℕ, ◌+◌, ◌*◌, ◌/◌, String, ◌==◌, Bool, true, false, not, Option, none, some, Result, ok, err,
  if◌then◌else◌,
}
use build_api.World.External.{Environment, Claims, SigningMethod, hmac, other_method, ParsedToken}
use build_api.World.Effect.{World, Action, ◌>>=◌, ◌>>◌, pure, fail, tick, gets}

-- `time.Second`, in microseconds
abbrev pub second : ℕ
second = 1_000_000

abbrev pub access_token_expiry : ℕ
access_token_expiry = 1 * 3600 * second

abbrev pub refresh_token_expiry : ℕ
refresh_token_expiry = 7 * 24 * 3600 * second

abbrev pub token_type_access : String
token_type_access = "access"

abbrev pub token_type_refresh : String
token_type_refresh = "refresh"

abbrev pub check_type : String → Result String Claims → Result String Claims
check_type type (err e) = err e
check_type type (ok claims) = if claims.type == type then ok claims else err "invalid token type"

-- The end of `parseToken`.
abbrev claims_of : Option Claims → Bool → Result String Claims
claims_of none valid = err "invalid token"
claims_of (some claims) valid = if valid then ok claims else err "invalid token"

abbrev pub checked : Result String ParsedToken → Result String Claims
checked (err e) = err e
checked (ok token) = claims_of token.claims token.valid

-- The key function of `parseToken`.
abbrev pub hmac_key : String → SigningMethod → Result String String
hmac_key secret hmac = ok secret
hmac_key secret other_method = err "unexpected signing method"

abbrev with_expiry : Result String String → Result String (String × ℕ)
with_expiry (ok signed) = ok (signed, access_token_expiry / second)
with_expiry (err e) = err e

module _ {K Q : Type 0} (env : Environment K Q) (secret : String) where
  abbrev pub claims_at : String → String → String → ℕ → ℕ → String → Claims
  claims_at user_id email type now expires_at jti = record {
    jti = jti;
    subject = user_id;
    issued_at = env.jwt.new_numeric_date now;
    expires_at = env.jwt.new_numeric_date expires_at;
    user_id = user_id;
    email = email;
    type = type;
  }

  -- `CreateAccessToken`
  unfoldable pub create_access_token : String → String → Action K (Result String (String × ℕ))
  create_access_token user_id email = do
    now ← gets (λ w. w.now)
    jti ← tick env.uuid_new
    let exp = now + access_token_expiry
    pure (
        with_expiry
          (env.jwt.signed_string secret (claims_at user_id email token_type_access now exp jti)))

  -- `CreateRefreshToken`
  unfoldable pub create_refresh_token : String → String → Action K (Result String String)
  create_refresh_token user_id email = do
    now ← gets (λ w. w.now)
    jti ← tick env.uuid_new
    let exp = now + refresh_token_expiry
    pure (env.jwt.signed_string secret (claims_at user_id email token_type_refresh now exp jti))

  -- `parseToken`
  unfoldable pub parse_token : String → Action K (Result String Claims)
  parse_token token = do
    now ← gets (λ w. w.now)
    pure (checked (env.jwt.parse_with_claims (hmac_key secret) now token))

  -- `ValidateAccessToken`
  unfoldable pub validate_access_token : String → Action K (Result String Claims)
  validate_access_token token = do
    claims ← parse_token token
    pure (check_type token_type_access claims)

  -- `ValidateRefreshToken`
  unfoldable pub validate_refresh_token : String → Action K (Result String Claims)
  validate_refresh_token token = do
    claims ← parse_token token
    pure (check_type token_type_refresh claims)
