-- ===== src/Tests/AuthTests.antt =====
-- Accounts, tokens and keys: instances and runs in the small environment.
use build_api.Common.{
  ℕ, String, ◌≡◌, ◌↔◌, ◌⊎◌, ◌+◌, ◌*◌, ◌≤◌, not, ◌∷◌, refl, true, false, none, some, [], ok, err,
  arith, map, eq_iff,
}
use build_api.Common.Int.{pos, negsuc}
use build_api.Common.Lists.{any_row, All, where_rows}
use build_api.Text.{split, trim_space, trim_left, trim_right, is_space, cut_prefix, has_prefix}
use build_api.Status.{Status, status_error, unauthenticated}
use build_api.Api.AuthMessages.{
  RegisterRequest, RegisterResponse, LoginResponse, CreateUserApiKeyRequest,
  CreateUserApiKeyResponse, RevokeUserApiKeyRequest,
}
use build_api.Auth.Context.{user_id_from_context}
use build_api.Auth.Encoding.{hex}
use build_api.Auth.Keys.{hash_api_key_token, lookup_api_key, select_live_key, touch_key, is_live}
use build_api.Auth.Jwt.{validate_access_token, parse_token, second}
use build_api.Auth.Scopes.{has_scope, lookup}
use build_api.Auth.Middleware.{authenticate, looks_like_jwt}
use build_api.Auth.Sql.{is_key_of}
use build_api.Auth.Validation.{check_scopes, expiry_of, add_days}
use build_api.Auth.Validation.Lifetime.{expiry_of-ok}
use build_api.Auth.Validation.Scopes.{IsValidScope, Distinct, check_scopes_iff}
use build_api.Auth.Jwt.Apart.{refresh_token_of_session}
use build_api.Auth.Service.{
  register, login, refresh_token, create_user_api_key, revoke_user_api_key,
}
use build_api.Auth.Service.KeyLife.{authenticate-create, revoke_user_api_key-cases}
use build_api.Auth.Service.Login.{login-register}
use build_api.Tests.Demo.{env, world, signed_in}

accounts : Unit {0}
unfolding split trim_space trim_left trim_right is_space cut_prefix has_prefix hex
    hash_api_key_token check_scopes expiry_of add_days has_scope lookup authenticate looks_like_jwt
    lookup_api_key select_live_key touch_key is_live validate_access_token parse_token
accounts = tt

abbrev bob : RegisterRequest
bob = record { email = " bob@x "; password = "secret"; name = "Bob" }

abbrev ann_again : RegisterRequest
ann_again = record { email = "ann@x"; password = "secret"; name = "Ann" }

login-register_example :
    (r : RegisterResponse) × ((register env "s" bob world).0 ≡ ok r)
    × ((l : LoginResponse) × ((login env "s"
            (record { email = trim_space bob.email; password = bob.password })
            (register env "s" bob world).1).0
          ≡ ok l)
        × (l.user.id ≡ r.user.id)
        × (l.user.email ≡ r.user.email)
        × (l.user.name ≡ r.user.name))
unfolding accounts
login-register_example =
    login-register env "s" (λ n. refl) bob world refl refl refl "secret" refl refl refl refl

abbrev new_key : CreateUserApiKeyRequest
new_key = record {
  name = "laptop";
  scopes = "builders:read" ∷ "organizations:read" ∷ [];
  expires_in_days = pos 30;
}

authenticate-create_example :
    (r : CreateUserApiKeyResponse) × ((create_user_api_key env "s" signed_in new_key world).0
      ≡ ok r)
    × ((authenticate env "s" r.token
          (record (create_user_api_key env "s" signed_in new_key world).1 { db_now = 6 })).0
        ≡ ok (record { user_id = "ann"; full_access = false; scopes = new_key.scopes }))
unfolding accounts
authenticate-create_example =
    authenticate-create env "s" signed_in new_key world "ann" (some (5 + 30 * 86400 * second))
      (1 ∷ 2 ∷ 3 ∷ 4 ∷ []) refl refl refl refl refl refl (λ n. refl) refl refl refl refl 6 refl

abbrev drop_key : RevokeUserApiKeyRequest
drop_key = record { id = "key" }

revoke_user_api_key-cases_example :
    ((s : Status) × ((revoke_user_api_key env "s" signed_in drop_key world).0 ≡ err s)
      × ((revoke_user_api_key env "s" signed_in drop_key world).1.db ≡ world.db))
    ⊎ ((kid : String) × (uid : String) × (env.pg.uuid_in (trim_space drop_key.id) ≡ ok kid)
        × (env.pg.uuid_in (user_id_from_context signed_in) ≡ ok uid)
        × ((revoke_user_api_key env "s" signed_in drop_key world).0 ≡ ok tt)
        × (any_row (is_key_of kid uid) world.db.keys ≡ true)
        × ((revoke_user_api_key env "s" signed_in drop_key world).1.db
            ≡ record world.db { keys = where_rows (λ k. not (is_key_of kid uid k)) world.db.keys }))
revoke_user_api_key-cases_example = revoke_user_api_key-cases env "s" signed_in drop_key world

refresh_token_of_session_example :
    (refresh_token env "s" (record { refresh_token = "a.b.c" }) world).0
    ≡ err (status_error unauthenticated "invalid refresh token")
unfolding accounts
refresh_token_of_session_example =
    refresh_token_of_session env "s" "a.b.c" world
      (record { user_id = "ann"; full_access = true; scopes = [] })
      (ground (arith, eq_iff "a.b.c" "")) refl refl

check_scopes_iff_example : (check_scopes [] (" org:read" ∷ "organizations:read" ∷ []) ≡ ok tt) ↔ (
    All IsValidScope (map trim_space (" org:read" ∷ "organizations:read" ∷ []))
    × Distinct (map trim_space (" org:read" ∷ "organizations:read" ∷ [])))
check_scopes_iff_example = check_scopes_iff (" org:read" ∷ "organizations:read" ∷ [])

expiry_of-ok_example :
    ((pos 0 ≡ negsuc 0) × (some (5 + 365 * 86400 * second) ≡ none))
    ⊎ ((days : ℕ) × ((pos 0 ≡ pos days) ⊎ ((pos 0 ≡ pos 0) × (days ≡ 365)))
        × (1 ≤ days)
        × (days ≤ 3650)
        × (some (5 + 365 * 86400 * second) ≡ some (5 + days * 86400 * second)))
unfolding accounts
expiry_of-ok_example = expiry_of-ok 5 (pos 0) (some (5 + 365 * 86400 * second)) refl

-- A padded scope passes the check of the scopes and is stored with its padding.
padded : check_scopes [] (" builders:read" ∷ []) ≡ ok tt
unfolding accounts
padded = refl
