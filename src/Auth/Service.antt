-- ===== src/Auth/Service.antt =====
-- The handlers of internal/auth/handler.go. Log lines are left out.
pub mod KeyLife
pub mod Login
pub mod Session
use build_api.Common.{
  ℕ, zero, suc, ◌=?◌, String, ◌==◌, Bool, true, false, not, ◌&&◌, ◌||◌, Option, none, some, List,
  [], ◌∷◌, Result, ok, err, if◌then◌else◌, map,
}
use build_api.Common.Lists.{length}
use build_api.Status.{
  Status, status_error, status_errorf, Code, invalid_argument, not_found, already_exists,
  unauthenticated, internal,
}
use build_api.Text.{trim_space}
use build_api.Api.AuthMessages.{
  User, RegisterRequest, RegisterResponse, LoginRequest, LoginResponse, GetMeResponse,
  UpdateProfileRequest, UpdateProfileResponse, RefreshTokenRequest, RefreshTokenResponse,
  CreateUserApiKeyRequest, CreateUserApiKeyResponse, UserApiKeyMetadata, ListUserApiKeysResponse,
  RevokeUserApiKeyRequest,
}
use build_api.World.Tables.{
  Db, UserRow, KeyRow, DbError, no_rows, pg_error, driver_error, db_error_text,
}
use build_api.World.External.{Environment, Claims}
use build_api.World.Effect.{
  World, Action, ◌>>=◌, ◌>>◌, pure, fail, fail_if, or_fail, run_sql, tick, gets,
}
use build_api.Auth.Context.{Context, user_id_from_context}
use build_api.Auth.Keys.{generate_user_api_key, hash_api_key_token}
use build_api.Auth.Jwt.{create_access_token, create_refresh_token, validate_refresh_token}
use build_api.Auth.Sql.{
  insert_user, select_user, select_login, update_user_name, insert_key, select_keys, delete_key,
}
use build_api.Auth.Validation.{check_scopes, expiry_of, is_unique_violation}

abbrev pub not_authenticated : Status
not_authenticated = status_error unauthenticated "not authenticated"

abbrev pub wrong_login : Status
wrong_login = status_error unauthenticated "invalid email or password"

abbrev pub email_taken : Status
email_taken = status_error already_exists "email already registered"

abbrev invalid : String → Status
invalid = status_error invalid_argument

-- `if errors.Is(err, pgx.ErrNoRows) { return missing }; return Internal`
abbrev missing_or_internal : Status → String → DbError → Status
missing_or_internal missing label no_rows = missing
missing_or_internal missing label (pg_error c t) = status_errorf internal label t
missing_or_internal missing label (driver_error t) = status_errorf internal label t

abbrev internal_error : String → DbError → Status
internal_error label e = status_errorf internal label (db_error_text e)

abbrev register_error : DbError → Status
register_error no_rows = email_taken
register_error (pg_error c t) =
    if is_unique_violation (pg_error c t)
    then email_taken
    else status_errorf internal "insert user" t
register_error (driver_error t) =
    if is_unique_violation (driver_error t)
    then email_taken
    else status_errorf internal "insert user" t

-- The zero values that a discarded error leaves.
abbrev token_or_empty : Result String (String × ℕ) → String × ℕ
token_or_empty (ok t) = t
token_or_empty (err e) = ("", 0)

abbrev text_or_empty : Result String String → String
text_or_empty (ok t) = t
text_or_empty (err e) = ""

abbrev proto_user : (ℕ → ℕ) → UserRow → User
proto_user epoch u = record {
  id = u.id;
  email = u.email;
  name = u.name;
  created_at = epoch u.created_at;
}

abbrev epoch_or_zero : (ℕ → ℕ) → Result DbError UserRow → ℕ
epoch_or_zero epoch (ok u) = epoch u.created_at
epoch_or_zero epoch (err e) = 0

abbrev epoch_if : (ℕ → ℕ) → Option ℕ → ℕ
epoch_if epoch none = 0
epoch_if epoch (some t) = epoch t

abbrev metadata_of : (ℕ → ℕ) → KeyRow → UserApiKeyMetadata
metadata_of epoch k = record {
  id = k.id;
  name = k.name;
  key_prefix = k.key_prefix;
  scopes = k.scopes;
  created_at = epoch k.created_at;
  last_used_at = epoch_if epoch k.last_used_at;
  expires_at = epoch_if epoch k.expires_at;
}

module _ {K Q : Type 0} (env : Environment K Q) (secret : String) where
  -- `Register`
  unfoldable pub register : RegisterRequest → Action K RegisterResponse
  register req = do
    let email = trim_space req.email
    let name = trim_space req.name
    fail_if (email == "" || req.password == "" || name == "")
        (invalid "email, password, and name are required")
    hashed ← tick (λ n. env.bcrypt_generate n req.password)
    hash ← or_fail hashed (status_errorf internal "hash password")
    now ← gets (λ w. w.db_now)
    inserted ← run_sql env (insert_user env.pg now email hash name)
    user_id ← or_fail inserted register_error
    row ← run_sql env (select_user env.pg now user_id)
    access ← create_access_token env secret user_id email
    refresh ← create_refresh_token env secret user_id email
    pure (record {
      user = record {
        id = user_id;
        email = email;
        name = name;
        created_at = epoch_or_zero env.pg.epoch row;
      };
      access_token = (token_or_empty access).0;
      refresh_token = text_or_empty refresh;
      expires_in = (token_or_empty access).1;
    })

  -- `Login`
  unfoldable pub login : LoginRequest → Action K LoginResponse
  login req = do
    fail_if (req.email == "" || req.password == "") (invalid "email and password are required")
    now ← gets (λ w. w.db_now)
    found ← run_sql env (select_login env.pg now req.email)
    u ← or_fail found (missing_or_internal wrong_login "query user")
    fail_if (not (env.bcrypt_compare u.password_hash req.password)) wrong_login
    row ← run_sql env (select_user env.pg now u.id)
    access ← create_access_token env secret u.id req.email
    refresh ← create_refresh_token env secret u.id req.email
    pure (record {
      user = record {
        id = u.id;
        email = req.email;
        name = u.name;
        created_at = epoch_or_zero env.pg.epoch row;
      };
      access_token = (token_or_empty access).0;
      refresh_token = text_or_empty refresh;
      expires_in = (token_or_empty access).1;
    })

  -- `GetMe`
  unfoldable pub get_me : Context → Action K GetMeResponse
  get_me ctx = do
    let user_id = user_id_from_context ctx
    fail_if (user_id == "") not_authenticated
    now ← gets (λ w. w.db_now)
    found ← run_sql env (select_user env.pg now user_id)
    u ← or_fail found (missing_or_internal (status_error not_found "user not found") "query user")
    pure (record { user = record (proto_user env.pg.epoch u) { id = user_id } })

  -- `UpdateProfile`
  unfoldable pub update_profile : Context → UpdateProfileRequest → Action K UpdateProfileResponse
  update_profile ctx req = do
    let user_id = user_id_from_context ctx
    fail_if (user_id == "") not_authenticated
    let name = trim_space req.name
    fail_if (name == "") (invalid "name is required")
    now ← gets (λ w. w.db_now)
    updated ← run_sql env (update_user_name env.pg now name user_id)
    affected ← or_fail updated (internal_error "update profile")
    fail_if (affected =? 0) (status_error not_found "user not found")
    found ← run_sql env (select_user env.pg now user_id)
    u ← or_fail found (missing_or_internal (status_error not_found "user not found") "query user")
    pure (record { user = record (proto_user env.pg.epoch u) { id = user_id; name = name } })

  -- `RefreshToken`
  unfoldable pub refresh_token : RefreshTokenRequest → Action K RefreshTokenResponse
  refresh_token req = do
    fail_if (req.refresh_token == "") (invalid "refresh_token is required")
    validated ← validate_refresh_token env secret req.refresh_token
    claims ← or_fail validated (λ e. status_error unauthenticated "invalid refresh token")
    created ← create_access_token env secret claims.user_id claims.email
    access ← or_fail created (status_errorf internal "create token")
    pure (record { access_token = access.0; expires_in = access.1 })

  -- `CreateUserApiKey`
  unfoldable pub create_user_api_key :
      Context → CreateUserApiKeyRequest → Action K CreateUserApiKeyResponse
  create_user_api_key ctx req = do
    let user_id = user_id_from_context ctx
    fail_if (user_id == "") not_authenticated
    let name = trim_space req.name
    fail_if (name == "") (invalid "name is required")
    fail_if (length req.scopes =? 0) (invalid "at least one scope is required")
    or_fail (check_scopes [] req.scopes) (λ s. s)
    now ← gets (λ w. w.now)
    expires_at ← or_fail (expiry_of now req.expires_in_days) (λ s. s)
    generated ← generate_user_api_key env
    secrets ← or_fail generated (status_errorf internal "generate api key")
    db_now ← gets (λ w. w.db_now)
    let hash = hash_api_key_token env secrets.0
    inserted ←
        run_sql env (insert_key env.pg db_now user_id name secrets.1 hash req.scopes expires_at)
    k ← or_fail inserted (internal_error "create api key")
    pure (record {
      key = record {
        id = k.id;
        name = name;
        key_prefix = secrets.1;
        scopes = req.scopes;
        created_at = env.pg.epoch k.created_at;
        last_used_at = 0;
        expires_at = epoch_if env.pg.epoch k.expires_at;
      };
      token = secrets.0;
    })

  -- `ListUserApiKeys`
  unfoldable pub list_user_api_keys : Context → Action K ListUserApiKeysResponse
  list_user_api_keys ctx = do
    let user_id = user_id_from_context ctx
    fail_if (user_id == "") not_authenticated
    now ← gets (λ w. w.db_now)
    rows ← run_sql env (select_keys env.pg now user_id)
    keys ← or_fail rows (internal_error "list api keys")
    pure (record { keys = map (metadata_of env.pg.epoch) keys })

  -- `RevokeUserApiKey`
  unfoldable pub revoke_user_api_key : Context → RevokeUserApiKeyRequest → Action K (Unit {0})
  revoke_user_api_key ctx req = do
    let user_id = user_id_from_context ctx
    fail_if (user_id == "") not_authenticated
    let id = trim_space req.id
    fail_if (id == "") (invalid "id is required")
    now ← gets (λ w. w.db_now)
    deleted ← run_sql env (delete_key env.pg now id user_id)
    affected ← or_fail deleted (internal_error "revoke api key")
    fail_if (affected =? 0) (status_error not_found "api key not found")
