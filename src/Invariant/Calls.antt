-- ===== src/Invariant/Calls.antt =====
-- What the calls of the account and organization services do to the tables.
use build_api.Common.{ℕ, ◌≤◌, String, ◌≡◌, refl, arith, subst, sym}
use build_api.World.Tables.{Db}
use build_api.World.External.{Environment}
use build_api.World.Effect.{World, Action, ◌>>=◌, pure, state-wrap}
use build_api.Auth.Context.{Context}
use build_api.Auth.Jwt.{
  create_access_token, create_refresh_token, validate_refresh_token, parse_token,
}
use build_api.Auth.Scopes.{has_scope}
use build_api.Auth.Service.{
  register, login, get_me, update_profile, refresh_token, create_user_api_key, list_user_api_keys,
  revoke_user_api_key,
}
use build_api.Auth.Sql.{select_user, select_login, select_keys}
use build_api.Api.AuthMessages.{LoginRequest, RefreshTokenRequest}
use build_api.Auth.Rpc.{
  AuthCall, run_auth_call, register_user, log_in, me, list_keys, rename, refresh, create_key,
  revoke_key,
}
use build_api.Organizations.Service.{create_organization, update_organization, delete_organization}
use build_api.Organizations.Rpc.{
  OrganizationCall, list, get, members, create, update, delete, run_organization_call,
}
use build_api.Organizations.Rpc.Frame.{run_organization_call-reads}
use build_api.Invariant.Runs.{Statement, OrganizationStatement}
use build_api.Invariant.Handlers.{
  update_profile-closed, create_user_api_key-closed, revoke_user_api_key-closed,
  create_organization-closed, delete_organization-closed,
}
use build_api.Invariant.RegisterUpdate.{register-closed, update_organization-closed}

module _ {K Q : Type 0} (env : Environment K Q) (secret : String) (w : World K) where
  login-db : (req : LoginRequest) → (login env secret req w).1.db ≡ w.db
  unfolding login select_login select_user create_access_token create_refresh_token
  login-db req = ground arith

  get_me-db : (ctx : Context) → (get_me env secret ctx w).1.db ≡ w.db
  unfolding get_me select_user
  get_me-db ctx = ground arith

  list_user_api_keys-db : (ctx : Context) → (list_user_api_keys env secret ctx w).1.db ≡ w.db
  unfolding list_user_api_keys select_keys
  list_user_api_keys-db ctx = ground arith

  refresh_token-db : (req : RefreshTokenRequest) → (refresh_token env secret req w).1.db ≡ w.db
  unfolding refresh_token validate_refresh_token parse_token create_access_token
  refresh_token-db req = ground arith

module _ {K Q : Type 0} (env : Environment K Q) (w : World K) (P : Db → Type 0) (h : P w.db) where
  wrapped :
      {A B : Type 0} (m : Action K A) (f : A → B)
      → P (m w).1.db
      → P ((m >>= (λ r. pure (f r))) w).1.db
  wrapped m f = subst (λ v. P v.db) (sym (state-wrap m f w))

  unchanged : {d : Db} → d ≡ w.db → P d
  unchanged same = subst P (sym same) h

  -- A property of the tables that the statements of the organization service preserve holds after
  -- each of its calls.
  pub run_organization_call-closed :
      ((a b : Db) → P a → OrganizationStatement env.pg a b → P b)
      → (ctx : Context) (c : OrganizationCall) → P (run_organization_call env ctx c w).1.db
  unfolding run_organization_call has_scope
  run_organization_call-closed closed ctx list =
      unchanged (run_organization_call-reads env ctx list w refl).0
  run_organization_call-closed closed ctx (get id) =
      unchanged (run_organization_call-reads env ctx (get id) w refl).0
  run_organization_call-closed closed ctx (members id) =
      unchanged (run_organization_call-reads env ctx (members id) w refl).0
  run_organization_call-closed closed ctx (create req) =
      wrapped (create_organization env ctx req) _
        (create_organization-closed env w P closed h ctx req)
  run_organization_call-closed closed ctx (update req) =
      wrapped (update_organization env ctx req) _
        (update_organization-closed env w P closed h ctx req)
  run_organization_call-closed closed ctx (delete id) =
      wrapped (delete_organization env ctx id) _
        (delete_organization-closed env w P closed h ctx id)

  -- A property of the tables that every statement preserves holds after each call of the account
  -- service.
  pub run_auth_call-closed :
      (from : ℕ)
      → ((a b : Db) → P a → Statement env from a b → P b)
      → from ≤ w.step
      → (secret : String) (ctx : Context) (c : AuthCall) → P (run_auth_call env secret ctx c w).1.db
  unfolding run_auth_call
  run_auth_call-closed from closed late secret ctx (register_user req) =
      wrapped (register env secret req) _ (register-closed env w P h from closed secret req)
  run_auth_call-closed from closed late secret ctx (log_in req) =
      wrapped (login env secret req) _ (unchanged (login-db env secret w req))
  run_auth_call-closed from closed late secret ctx me =
      wrapped (get_me env secret ctx) _ (unchanged (get_me-db env secret w ctx))
  run_auth_call-closed from closed late secret ctx list_keys =
      wrapped (list_user_api_keys env secret ctx) _
        (unchanged (list_user_api_keys-db env secret w ctx))
  run_auth_call-closed from closed late secret ctx (rename req) =
      wrapped (update_profile env secret ctx req) _
        (update_profile-closed env secret ctx w P from closed h req)
  run_auth_call-closed from closed late secret ctx (refresh req) =
      wrapped (refresh_token env secret req) _ (unchanged (refresh_token-db env secret w req))
  run_auth_call-closed from closed late secret ctx (create_key req) =
      wrapped (create_user_api_key env secret ctx req) _
        (create_user_api_key-closed env secret ctx w P from closed h req late)
  run_auth_call-closed from closed late secret ctx (revoke_key req) =
      wrapped (revoke_user_api_key env secret ctx req) _
        (revoke_user_api_key-closed env secret ctx w P from closed h req)
