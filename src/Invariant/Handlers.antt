-- ===== src/Invariant/Handlers.antt =====
-- What the handlers of accounts, keys and organizations do to the tables: a property that every
-- statement preserves holds after them, too.
use build_api.Common.{ℕ, ◌≤◌, String, ◌≡◌, arith, Result-cases, inl, inr, List, Option, ok, none}
use build_api.Text.{trim_space}
use build_api.World.Tables.{Db}
use build_api.World.External.{Environment}
use build_api.World.Effect.{World}
use build_api.Auth.Service.{update_profile, create_user_api_key, revoke_user_api_key}
use build_api.Auth.Sql.{select_user, insert_key}
use build_api.Auth.Context.{Context, user_id_from_context}
use build_api.Auth.Keys.{
  generate_user_api_key, hash_api_key_token, key_of_bytes, lookup_api_key, select_live_key,
}
use build_api.Auth.Jwt.{validate_access_token, parse_token}
use build_api.Auth.Middleware.{authenticate}
use build_api.Auth.Validation.{expiry_of}
use build_api.Api.AuthMessages.{
  UpdateProfileRequest, CreateUserApiKeyRequest, RevokeUserApiKeyRequest,
}
use build_api.Api.OrganizationMessages.{CreateOrganizationRequest}
use build_api.Cluster.{ensure_org_namespace, delete_org_namespace, count_builders}
use build_api.Organizations.Sql.{
  select_role, insert_org, insert_owner, delete_org, select_org_created,
}
use build_api.Organizations.Service.{
  delete_organization, store_organization, create_organization, or_roll_back,
  count_builders_in_namespace,
}
use build_api.Organizations.Service.Atomic.{create_organization-cases}
use build_api.Invariant.Runs.{
  Statement, OrganizationStatement, user_renamed, key_inserted, key_touched, key_deleted,
  org_inserted, owner_inserted, org_deleted,
}

-- What holds of the tables before a call and after each of its statements, holds after the call.
module _ {K Q : Type 0} (env : Environment K Q) (secret : String) (ctx : Context) (w : World K)
    (P : Db → Type 0) where
  create_user_api_key-keeps :
      (req : CreateUserApiKeyRequest)
      → P w.db
      → ((expires_at : Option ℕ) (bytes : List ℕ)
          → env.random_read w.step ≡ ok bytes
          → P
              (insert_key env.pg w.db_now
                (user_id_from_context ctx)
                (trim_space req.name)
                (key_of_bytes env bytes).1
                (hash_api_key_token env (key_of_bytes env bytes).0)
                req.scopes
                expires_at
                w.db).1)
      → P (create_user_api_key env secret ctx req w).1.db
  unfolding create_user_api_key generate_user_api_key
  create_user_api_key-keeps req before after =
      elim (Result-cases (expiry_of w.now req.expires_in_days)) [
        | inr (e, bad) ↦ ground arith
        | inl (expires_at, lifetime) ↦ elim (Result-cases (env.random_read w.step)) [
          | inr (e, failed) ↦ ground arith
          | inl (bytes, drawn) ↦ ground (arith, after expires_at bytes drawn)
        ]
      ]

  pub delete_organization-keeps :
      (id : String)
      → P w.db
      → P (delete_org env.pg w.db_now id w.db).1
      → P (delete_organization env ctx id w).1.db
  unfolding delete_organization select_role delete_org_namespace
  delete_organization-keeps id before after = ground arith

  pub store_organization-keeps :
      (user_id name slug plan id : String)
      → (insert_org env.pg w.db_now name slug plan w.db).0 ≡ ok id
      → P w.db
      → (let db = (insert_org env.pg w.db_now name slug plan w.db).1 in P db)
      → (let db = (insert_org env.pg w.db_now name slug plan w.db).1 in
          P (insert_owner env.pg w.db_now user_id id db).1)
      → (let db = (insert_org env.pg w.db_now name slug plan w.db).1 in
          P (delete_org env.pg w.db_now id db).1)
      → (let db = (insert_org env.pg w.db_now name slug plan w.db).1 in
          P (delete_org env.pg w.db_now id (insert_owner env.pg w.db_now user_id id db).1).1)
      → P (store_organization env user_id name slug plan w).1.db
  unfolding store_organization or_roll_back select_org_created ensure_org_namespace
      count_builders_in_namespace count_builders
  store_organization-keeps user_id name slug plan id inserted a b c d e = ground arith

module _ {K Q : Type 0} (env : Environment K Q) (secret : String) (ctx : Context) (w : World K)
    (P : Db → Type 0) (from : ℕ) (closed : (a b : Db) → P a → Statement env from a b → P b)
    (h : P w.db) where
  pub update_profile-closed :
      (req : UpdateProfileRequest) → P (update_profile env secret ctx req w).1.db
  unfolding update_profile select_user
  update_profile-closed req = ground (
    arith,
    closed _ _ h (user_renamed w.db_now (trim_space req.name) (user_id_from_context ctx) w.db),
  )

  pub create_user_api_key-closed :
      (req : CreateUserApiKeyRequest)
      → from ≤ w.step
      → P (create_user_api_key env secret ctx req w).1.db
  create_user_api_key-closed req late =
      create_user_api_key-keeps env secret ctx w P req h λ expires_at bytes drawn. closed _ _ h (
        key_inserted w.db_now w.step bytes (user_id_from_context ctx) (trim_space req.name)
          req.scopes expires_at w.db drawn late)

  pub revoke_user_api_key-closed :
      (req : RevokeUserApiKeyRequest) → P (revoke_user_api_key env secret ctx req w).1.db
  unfolding revoke_user_api_key
  revoke_user_api_key-closed req = ground (
    arith,
    closed _ _ h (key_deleted w.db_now (trim_space req.id) (user_id_from_context ctx) w.db),
  )

  pub authenticate-closed : (token : String) → P (authenticate env secret token w).1.db
  unfolding authenticate validate_access_token parse_token lookup_api_key select_live_key
  authenticate-closed token =
      elim (Result-cases (select_live_key w.db_now (hash_api_key_token env token) w.db).0) [
        | inr (e, missing) ↦ ground arith
        | inl (k, found) ↦ ground (arith, closed _ _ h (key_touched w.db_now k.id w.db))
      ]

module _ {K Q : Type 0} (env : Environment K Q) (w : World K) (P : Db → Type 0)
    (closed : (a b : Db) → P a → OrganizationStatement env.pg a b → P b) (h : P w.db) where
  store_organization-closed :
      (user_id name slug plan : String) → P (store_organization env user_id name slug plan w).1.db
  unfolding store_organization or_roll_back select_org_created ensure_org_namespace
      count_builders_in_namespace count_builders
  store_organization-closed user_id name slug plan =
      let with_org = closed _ _ h (org_inserted w.db_now name slug plan w.db) in
      elim (Result-cases (insert_org env.pg w.db_now name slug plan w.db).0) [
        | inr (e, failed) ↦ ground (arith, with_org)
        | inl (id, inserted) ↦
            let db = (insert_org env.pg w.db_now name slug plan w.db).1 in
            let with_owner = closed _ _ with_org (owner_inserted w.db_now user_id id db) in
            let db' = (insert_owner env.pg w.db_now user_id id db).1 in
            store_organization-keeps env "" (record { principal = none; metadata = none }) w P
              user_id name slug plan id inserted h with_org with_owner
              (closed _ _ with_org (org_deleted w.db_now id db))
              (closed _ _ with_owner (org_deleted w.db_now id db'))
      ]

  pub create_organization-closed :
      (ctx : Context) (req : CreateOrganizationRequest) → P (create_organization env ctx req w).1.db
  create_organization-closed ctx req = elim (create_organization-cases env ctx req w) [
    | inl (refusal, refused) ↦ rw refused h
    | inr (stored, _, _, _) ↦ rw stored (store_organization-closed _ _ _ _)
  ]

  pub delete_organization-closed :
      (ctx : Context) (id : String) → P (delete_organization env ctx id w).1.db
  delete_organization-closed ctx id =
      delete_organization-keeps env "" ctx w P id h (closed _ _ h (org_deleted w.db_now id w.db))
