-- ===== src/Auth/Service/Session.antt =====
-- Sessions: what a token is good for after it was handed out.
use build_api.Common.{
  ℕ, suc, ◌+◌, ◌<◌, String, ◌==◌, eq_iff, eq_refl, ◌≡◌, ◌≢◌, true, false, none, some, [], ok, arith,
  inl, inr, Result-cases,
}
use build_api.Common.Lists.{first_row}
use build_api.Api.AuthMessages.{LoginResponse, RefreshTokenResponse}
use build_api.World.Tables.{UserRow}
use build_api.World.External.{Environment, Claims}
use build_api.World.Effect.{World}
use build_api.Auth.Jwt.{
  create_access_token, create_refresh_token, claims_at, access_token_expiry, token_type_access,
  hmac_key, validate_access_token, validate_refresh_token, parse_token,
}
use build_api.Auth.Middleware.{authenticate, looks_like_jwt}
use build_api.Auth.Sql.{select_login, select_user}
use build_api.Auth.Service.{login, refresh_token}

module _ {K Q : Type 0} (env : Environment K Q) (secret : String) where
  -- The library parses the token into the claims, as valid ones, until they expire.
  abbrev pub Parses : String → Claims → Type 0
  Parses token c =
      (now : ℕ)
      → now < c.expires_at
      → env.jwt.parse_with_claims (hmac_key secret) now token
        ≡ ok (record { claims = some c; valid = true })

  -- The claims of an access token that is made at a state.
  abbrev pub access_claims : String → String → World K → Claims
  access_claims user_id email w =
      claims_at env secret user_id email token_type_access w.now (w.now + access_token_expiry)
        (env.uuid_new w.step)

  pub authenticate-access :
      (token user_id email : String) (w w' : World K)
      → looks_like_jwt token ≡ true
      → Parses token (access_claims user_id email w)
      → w'.now < (access_claims user_id email w).expires_at
      → (authenticate env secret token w').0
        ≡ ok (record { user_id = user_id; full_access = true; scopes = [] })
  unfolding authenticate validate_access_token parse_token
  authenticate-access token user_id email w w' shaped parses alive =
      ground (arith, parses w'.now, eq_refl "access")

  module _ (calm : (n : ℕ) → env.pg.outage n ≡ none) (email password : String) (w : World K)
      (u : UserRow) (given : (email == "") ≡ false) (secret_given : (password == "") ≡ false)
      (found : first_row (λ v. v.email == email) w.db.users ≡ some u)
      (matches : env.bcrypt_compare u.password_hash password ≡ true) (token : String) where
    -- The state in which `Login` makes the access token.
    abbrev pub issuing : World K
    issuing = record w { step = suc (suc w.step) }

    -- The access token of the answer to a login is the one that the library signs.
    pub login-token :
        env.jwt.signed_string secret (access_claims u.id email issuing) ≡ ok token
        → (l : LoginResponse) × ((login env secret
              (record { email = email; password = password })
              w).0
            ≡ ok l)
          × (l.access_token ≡ token)
    unfolding login select_login select_user create_access_token create_refresh_token
    login-token signed =
        elim (Result-cases (login env secret (record { email = email; password = password }) w).0) [
          | inl (l, done) ↦ (l, done, ground (arith, calm w.step, calm (suc w.step)))
          | inr (s, failed) ↦ absurd (ground (arith, calm w.step, calm (suc w.step)))
        ]

  refresh-token :
      (old new : String) (c : Claims) (w : World K)
      → old ≢ ""
      → c.type ≡ "refresh"
      → w.now < c.expires_at
      → Parses old c
      → env.jwt.signed_string secret (access_claims c.user_id c.email w) ≡ ok new
      → (r : RefreshTokenResponse) × ((refresh_token env secret
            (record { refresh_token = old })
            w).0
          ≡ ok r)
        × (r.access_token ≡ new)
  unfolding refresh_token validate_refresh_token parse_token create_access_token
  refresh-token old new c w filled kind alive parses signed =
      let parsed = parses w.now alive in
      elim (Result-cases (refresh_token env secret (record { refresh_token = old }) w).0) [
        | inl (r, done) ↦ (r, done, ground (arith, eq_iff old "", eq_iff c.type "refresh"))
        | inr (s, failed) ↦ absurd (ground (arith, eq_iff old "", eq_iff c.type "refresh"))
      ]

  -- A refresh token that the library parses into claims of the type "refresh", and that has not
  -- expired, is exchanged for an access token that authenticates the user of the claims with full
  -- access until it expires, if the library signs the new claims as a token of a JWT's shape and
  -- parses that token back.
  pub authenticate-refresh :
      (old new : String) (c : Claims) (w : World K)
      → old ≢ ""
      → c.type ≡ "refresh"
      → w.now < c.expires_at
      → Parses old c
      → env.jwt.signed_string secret (access_claims c.user_id c.email w) ≡ ok new
      → looks_like_jwt new ≡ true
      → Parses new (access_claims c.user_id c.email w)
      → (w' : World K) → w'.now < (access_claims c.user_id c.email w).expires_at
      → (r : RefreshTokenResponse) × ((refresh_token env secret
            (record { refresh_token = old })
            w).0
          ≡ ok r)
        × ((authenticate env secret r.access_token w').0
            ≡ ok (record { user_id = c.user_id; full_access = true; scopes = [] }))
  authenticate-refresh old new c w filled kind alive parses signed shaped new_parses w' later =
      let (r, done, same) = refresh-token old new c w filled kind alive parses signed in
      (r, done, rw same (authenticate-access new c.user_id c.email w w' shaped new_parses later))
