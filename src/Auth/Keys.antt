-- ===== src/Auth/Keys.antt =====
-- internal/auth/apikeys.go: API keys, their secrets and their lookup.
use Prim.Native.String
use Prim.Native.String.{len, slice}
use build_api.Common.{
  ℕ, ltb, String, ◌==◌, Bool, ◌&&◌, Option, none, some, List, Result, ok, err, if◌then◌else◌, map,
}
use build_api.Common.Lists.{first_row}
use build_api.Auth.Encoding.{base64_raw_url, hex}
use build_api.World.Tables.{Db, KeyRow, DbError, no_rows, pg_error, driver_error}
use build_api.World.External.{Environment}
use build_api.World.Effect.{Action, ◌>>=◌, ◌>>◌, pure, branch, run_sql, tick, gets}
use build_api.World.Sql.{one_row}

-- expires_at IS NULL OR expires_at > NOW()
unfoldable pub is_live : ℕ → Option ℕ → Bool
is_live db_now none = Bool.true
is_live db_now (some t) = ltb db_now t

-- SELECT id, user_id, scopes FROM user_api_keys WHERE key_hash = $1 AND ...
unfoldable pub select_live_key : ℕ → String → Db → Result DbError KeyRow × Db
select_live_key db_now hash db =
    (one_row (first_row (λ k. k.key_hash == hash && is_live db_now k.expires_at) db.keys), db)

abbrev touched : ℕ → String → KeyRow → KeyRow
touched db_now id k = if k.id == id then record k { last_used_at = some db_now } else k

-- UPDATE user_api_keys SET last_used_at = NOW() WHERE id = $1
unfoldable pub touch_key : ℕ → String → Db → Result DbError (Unit {0}) × Db
touch_key db_now id db = (ok tt, record db { keys = map (touched db_now id) db.keys })

module _ {K Q : Type 0} (env : Environment K Q) where
  -- `HashAPIKeyToken`
  unfoldable pub hash_api_key_token : String → String
  hash_api_key_token full_token = hex (env.sha256 full_token)

  -- The secret and its prefix, from the bytes that `rand.Read` gives.
  unfoldable pub key_of_bytes : List ℕ → String × String
  key_of_bytes bytes =
      let full = String.◌++◌ "bh_" (base64_raw_url bytes) in
      (full, if ltb 12 (len full) then slice full 0 12 else full)

  abbrev key_or_error : Result String (List ℕ) → Result String (String × String)
  key_or_error (ok bytes) = ok (key_of_bytes bytes)
  key_or_error (err text) = err (String.◌++◌ "random: " text)

  -- `GenerateUserAPIKey`
  unfoldable pub generate_user_api_key : Action K (Result String (String × String))
  generate_user_api_key = do bytes ← tick env.random_read; pure (key_or_error bytes)

  abbrev touch_then : Result DbError KeyRow → Action K (Result String (String × List String))
  touch_then (ok k) = do
    w ← gets (λ w. w.db_now)
    run_sql env (touch_key w k.id)
    pure (ok (k.user_id, k.scopes))
  touch_then (err no_rows) = pure (err "not found")
  touch_then (err (pg_error c t)) = pure (err t)
  touch_then (err (driver_error t)) = pure (err t)

  -- `LookupAPIKey`
  unfoldable pub lookup_api_key : String → Action K (Result String (String × List String))
  lookup_api_key full_token = branch (full_token == "") (pure (err "empty token")) (do
    now ← gets (λ w. w.db_now)
    found ← run_sql env (select_live_key now (hash_api_key_token full_token))
    touch_then found)
