-- ===== src/Auth/Jwt/Apart.antt =====
-- Session tokens and refresh tokens.
use build_api.Common.{String, eq_iff, ◌≡◌, ◌≢◌, true, ok, err, arith, Result-cases, inl, inr}
use build_api.Status.{status_error, unauthenticated}
use build_api.World.External.{Environment}
use build_api.World.Effect.{World}
use build_api.Auth.Context.{Principal}
use build_api.Auth.Keys.{lookup_api_key}
use build_api.Auth.Jwt.{
  validate_access_token, validate_refresh_token, parse_token, checked, hmac_key,
}
use build_api.Auth.Middleware.{authenticate}
use build_api.Auth.Service.{refresh_token}

module _ {K Q : Type 0} (env : Environment K Q) (secret : String) where
  -- A token other than "" that authenticates a session is refused by `RefreshToken` as an invalid refresh token,
  -- at the same time and with the same secret.
  pub refresh_token_of_session :
      (token : String) (w : World K) (p : Principal)
      → token ≢ ""
      → (authenticate env secret token w).0 ≡ ok p
      → p.full_access ≡ true
      → (refresh_token env secret (record { refresh_token = token }) w).0
        ≡ err (status_error unauthenticated "invalid refresh token")
  unfolding authenticate refresh_token validate_access_token validate_refresh_token parse_token
      lookup_api_key
  refresh_token_of_session token w p filled h full =
      elim (Result-cases (checked (env.jwt.parse_with_claims (hmac_key secret) w.now token))) [
        | inl (c, parsed) ↦ ground (
          arith,
          eq_iff token "",
          eq_iff c.type "access",
          eq_iff c.type "refresh",
          eq_iff "access" "refresh",
        )
        | inr (e, bad) ↦ ground (arith, eq_iff token "")
      ]
