-- ===== src/Tests/RevokedTests.antt =====
-- A key that the server makes and that is revoked, while its user makes another one.
use build_api.Common.{
  ℕ, ◌≤◌, String, ◌==◌, ltb, ◌≡◌, ◌≢◌, List, refl, subst, some, none, [], ◌∷◌, ok, err, ◌+◌, ◌*◌,
  if◌then◌else◌, arith, eq_iff,
}
use build_api.Common.Int.{pos}
use build_api.Text.{split, trim_space, trim_left, trim_right, is_space, cut_prefix, has_prefix}
use build_api.Api.AuthMessages.{RevokeUserApiKeyRequest, CreateUserApiKeyRequest}
use build_api.World.Tables.{KeyRow}
use build_api.World.External.{Environment}
use build_api.World.Effect.{World}
use build_api.Auth.Encoding.{hex, base64_raw_url}
use build_api.Auth.Jwt.{validate_access_token, parse_token, second}
use build_api.Auth.Keys.{hash_api_key_token, key_of_bytes, generate_user_api_key}
use build_api.Auth.Middleware.{
  authenticate, looks_like_jwt, bad_token, unary_server_interceptor, extract_bearer_token,
  first_bearer, bearer,
}
use build_api.Auth.Rpc.{create_key, serve_auth_call, run_auth_call}
use build_api.Auth.Scopes.{has_scope, lookup, enforce_access}
use build_api.Auth.Service.{create_user_api_key, revoke_user_api_key}
use build_api.Auth.Sql.{insert_key, delete_key}
use build_api.Auth.Validation.{check_scopes, expiry_of, add_days}
use build_api.Server.{ServerCall, auth_call, serve_call}
use build_api.Invariant.Tables.{WellFormed}
use build_api.Invariant.Revoked.{Unrepeated, at_once, after_call, authenticate-revoke}
use build_api.Tests.Demo.{env, world, db, session, signed_in}

creation : Unit {0}
unfolding serve_call serve_auth_call run_auth_call create_user_api_key revoke_user_api_key
    insert_key delete_key unary_server_interceptor authenticate validate_access_token parse_token
    extract_bearer_token first_bearer bearer looks_like_jwt has_scope lookup enforce_access split
    trim_space trim_left trim_right is_space cut_prefix has_prefix hash_api_key_token hex
    key_of_bytes base64_raw_url generate_user_api_key check_scopes expiry_of add_days
creation = tt

-- A random source that gives other bytes from the third step on, and a hash that tells the token of
-- the first bytes from all others.
abbrev hashing : Environment ℕ String
hashing = record env {
  random_read = λ n. ok (if ltb n 3 then 1 ∷ 2 ∷ 3 ∷ 4 ∷ [] else 5 ∷ 6 ∷ 7 ∷ 8 ∷ []);
  sha256 = λ s. if s == "bh_AQIDBA" then 1 ∷ [] else 2 ∷ [];
}

abbrev new_key : CreateUserApiKeyRequest
new_key = record { name = "ci 2"; scopes = "builders:read" ∷ []; expires_in_days = pos 30 }

abbrev create_call : ServerCall
create_call = auth_call (create_key new_key)

abbrev made_key : KeyRow
made_key = record {
  id = "id-0";
  user_id = "ann";
  name = "ci 2";
  key_prefix = "bh_AQIDBA";
  key_hash = "01";
  scopes = "builders:read" ∷ [];
  created_at = 5;
  last_used_at = none;
  expires_at = some (5 + 30 * 86400 * second);
}

abbrev empty_handed : World ℕ
empty_handed = record world { db = record db { keys = [] } }

abbrev with_key : World ℕ
with_key = record world { db = record db { keys = made_key ∷ []; drawn = 1 }; step = 2 }

-- The server makes the key, with the first random bytes.
with_key_made : (serve_call hashing "s" session create_call empty_handed).1 ≡ with_key
unfolding creation
with_key_made = refl

with_key-WellFormed : WellFormed with_key.db
with_key-WellFormed = record {
  user_ids = (refl, tt);
  emails = (refl, tt);
  org_ids = (refl, tt);
  slugs = (refl, tt);
  key_ids = (refl, tt);
  hashes = (refl, tt);
  pairs = (refl, tt);
  member_users = (refl, tt);
  member_orgs = (refl, tt);
  key_users = (refl, tt);
}

abbrev revoke : RevokeUserApiKeyRequest
revoke = record { id = " id-0 " }

abbrev revoked : World ℕ
revoked = (revoke_user_api_key hashing "s" signed_in revoke with_key).1

fresh_hash :
    hash_api_key_token hashing (key_of_bytes hashing (5 ∷ 6 ∷ 7 ∷ 8 ∷ [])).0
    ≢ hash_api_key_token hashing "bh_AQIDBA"
unfolding creation
fresh_hash e = ground (arith, eq_iff "02" "01")

later_bytes :
    (n : ℕ) (bytes : List ℕ) → 3 ≤ n → hashing.random_read n ≡ ok bytes → 5 ∷ 6 ∷ 7 ∷ 8 ∷ [] ≡ bytes
later_bytes n bytes late drawn = ground arith

hashing-Unrepeated : Unrepeated hashing "s" "bh_AQIDBA" 3
hashing-Unrepeated n bytes late drawn =
    subst
      (λ b.
        hash_api_key_token hashing (key_of_bytes hashing b).0
        ≢ hash_api_key_token hashing "bh_AQIDBA")
      (later_bytes n bytes late drawn) fresh_hash

authenticate-revoke_example :
    (authenticate hashing "s" "bh_AQIDBA" (serve_call hashing "s" session create_call revoked).1).0
    ≡ err bad_token
unfolding revoke_user_api_key delete_key hash_api_key_token hex looks_like_jwt split trim_space
    trim_left trim_right is_space
authenticate-revoke_example =
    authenticate-revoke hashing "s" "bh_AQIDBA" signed_in revoke made_key with_key
      (serve_call hashing "s" session create_call revoked).1 with_key-WellFormed refl refl refl refl
      hashing-Unrepeated refl (after_call session create_call revoked at_once)
