-- ===== src/Invariant/OrgServed.antt =====
-- Calls of the server and the rows of other organizations.
use build_api.Common.{
  ℕ, String, ◌≡◌, ◌≢◌, ◌⊎◌, refl, ◌∙◌, inl, inr, ok, true, arith, subst, sym, ap,
}
use build_api.Text.{trim_space}
use build_api.World.Tables.{Db}
use build_api.World.External.{Environment}
use build_api.World.Effect.{World, state-wrap}
use build_api.Auth.Context.{Context, Principal, with_principal}
use build_api.Auth.Middleware.{authenticate}
use build_api.Auth.Middleware.Gate.{Admitted}
use build_api.Auth.Keys.{lookup_api_key, select_live_key, touch_key, generate_user_api_key}
use build_api.Auth.Jwt.{
  validate_access_token, validate_refresh_token, parse_token, create_access_token,
  create_refresh_token,
}
use build_api.Auth.Sql.{
  insert_user, update_user_name, insert_key, delete_key, select_user, select_login, select_keys,
}
use build_api.Auth.Service.{
  register, login, get_me, update_profile, refresh_token, create_user_api_key, list_user_api_keys,
  revoke_user_api_key,
}
use build_api.Api.AuthMessages.{
  RegisterRequest, LoginRequest, RefreshTokenRequest, CreateUserApiKeyRequest,
  RevokeUserApiKeyRequest,
}
use build_api.Auth.Rpc.{
  AuthCall, run_auth_call, register_user, log_in, me, list_keys, rename, refresh, create_key,
  revoke_key,
}
use build_api.Auth.Scopes.{has_scope, public_methods}
use build_api.Builders.Rpc.{run_builder_call}
use build_api.Builders.Rpc.Frame.{run_builder_call-db}
use build_api.Membership.Rows.{IsMember}
use build_api.Organizations.Rpc.{OrganizationCall, run_organization_call}
use build_api.Organizations.Rpc.Access.{organization_call-protected}
use build_api.Templates.Rpc.{run_template_call}
use build_api.Templates.Rpc.Frame.{run_template_call-db}
use build_api.Server.{
  ServerCall, auth_call, builder_call, organization_call, template_call, server_method, run_call,
  serve_call,
}
use build_api.Server.Passing.{interceptor-admitted, serve_call-interceptor}
use build_api.Server.Isolation.{authenticate-drawn}
use build_api.Invariant.RegisterUpdate.{register-keeps}
use build_api.Invariant.OrgRows.{SameOrg}
use build_api.Invariant.OrgCalls.{run_organization_call-SameOrg}

-- The tables of organizations and of memberships are the same.
abbrev SameTables : Db → Db → Type 0
SameTables a b = (b.organizations ≡ a.organizations) × (b.members ≡ a.members)

module _ {K Q : Type 0} (env : Environment K Q) (secret : String) (w : World K) where
  authenticate-SameTables :
      (token : String) → SameTables w.db (authenticate env secret token w).1.db
  unfolding authenticate validate_access_token parse_token lookup_api_key select_live_key touch_key
  authenticate-SameTables token = ground arith

  insert_user-SameTables :
      (now : ℕ) (email hash name : String)
      → SameTables w.db (insert_user env.pg now email hash name w.db).1
  unfolding insert_user
  insert_user-SameTables now email hash name = ground arith

  register-SameTables : (req : RegisterRequest) → SameTables w.db (register env secret req w).1.db
  register-SameTables req =
      register-keeps env w (SameTables w.db) (refl, refl) secret req
        (λ hash. insert_user-SameTables w.db_now (trim_space req.email) hash (trim_space req.name))

  login-SameTables : (req : LoginRequest) → SameTables w.db (login env secret req w).1.db
  unfolding login create_access_token create_refresh_token select_login select_user
  login-SameTables req = ground arith

  refresh_token-SameTables :
      (req : RefreshTokenRequest) → SameTables w.db (refresh_token env secret req w).1.db
  unfolding refresh_token validate_refresh_token parse_token create_access_token
  refresh_token-SameTables req = ground arith

  module _ (ctx : Context) where
    create_user_api_key-SameTables :
        (req : CreateUserApiKeyRequest)
        → SameTables w.db (create_user_api_key env secret ctx req w).1.db
    unfolding create_user_api_key generate_user_api_key insert_key
    create_user_api_key-SameTables req = ground arith

    revoke_user_api_key-SameTables :
        (req : RevokeUserApiKeyRequest)
        → SameTables w.db (revoke_user_api_key env secret ctx req w).1.db
    unfolding revoke_user_api_key delete_key
    revoke_user_api_key-SameTables req = ground arith

    run_auth_call-SameTables :
        (c : AuthCall) → SameTables w.db (run_auth_call env secret ctx c w).1.db
    unfolding run_auth_call get_me update_profile list_user_api_keys update_user_name select_user
        select_keys
    run_auth_call-SameTables (register_user req) = ground (arith, register-SameTables req)
    run_auth_call-SameTables (log_in req) = ground (arith, login-SameTables req)
    run_auth_call-SameTables me = ground arith
    run_auth_call-SameTables (rename req) = ground arith
    run_auth_call-SameTables (refresh req) = ground (arith, refresh_token-SameTables req)
    run_auth_call-SameTables (create_key req) = ground (arith, create_user_api_key-SameTables req)
    run_auth_call-SameTables list_keys = ground arith
    run_auth_call-SameTables (revoke_key req) = ground (arith, revoke_user_api_key-SameTables req)

module _ {K Q : Type 0} (env : Environment K Q) (secret : String) (ctx : Context)
    (w : World K) where
  -- Only the organization service changes the two tables.
  run_call-SameTables :
      (c : ServerCall)
      → ((o : OrganizationCall) × (c ≡ organization_call o))
        ⊎ SameTables w.db (run_call env secret ctx c w).1.db
  unfolding run_call
  run_call-SameTables (organization_call c) = inl (c, refl)
  run_call-SameTables (auth_call c) = inr (
      subst (λ v. SameTables w.db v.db) (sym (state-wrap (run_auth_call env secret ctx c) _ w))
        (run_auth_call-SameTables env secret w ctx c))
  run_call-SameTables (builder_call c) = inr (
      subst (λ v. SameTables w.db v.db) (sym (state-wrap (run_builder_call env ctx c) _ w))
        (rw (run_builder_call-db env ctx c w) (refl, refl)))
  run_call-SameTables (template_call c) = inr (
      subst (λ v. SameTables w.db v.db) (sym (state-wrap (run_template_call env ctx c) _ w))
        (rw (run_template_call-db env ctx c w) (refl, refl)))

module _ {K Q : Type 0} (env : Environment K Q) (secret ns oid : String)
    (known : env.pg.uuid_in ns ≡ ok oid) where
  SameTables-SameOrg : (a b : Db) → SameTables a b → SameOrg oid a b
  SameTables-SameOrg a b (orgs, members) = rw orgs (rw members (refl, refl))

  SameOrg-after : (a b c : Db) → SameTables a b → SameOrg oid b c → SameOrg oid a c
  SameOrg-after a b c first then_ =
      let before = SameTables-SameOrg a b first in (then_.0 ∙ before.0, then_.1 ∙ before.1)

  -- The database draws an identifier of its own form for the next row, and not this organization's.
  abbrev Fresh : World K → Type 0
  Fresh w =
      (env.pg.uuid_in (env.pg.gen_random_uuid w.db.drawn) ≡ ok (env.pg.gen_random_uuid w.db.drawn))
      × (env.pg.gen_random_uuid w.db.drawn ≢ oid)

  run_organization_call-kept :
      (ctx : Context) (o : OrganizationCall) (w : World K)
      → Fresh w
      → IsMember env ctx ns w
        ⊎ SameOrg oid w.db (run_call env secret ctx (organization_call o) w).1.db
  unfolding run_call
  run_organization_call-kept ctx o w fresh =
      subst (λ v. IsMember env ctx ns w ⊎ SameOrg oid w.db v.db)
        (sym (state-wrap (run_organization_call env ctx o) _ w))
        (run_organization_call-SameOrg env ns oid known ctx w o fresh.0 fresh.1)

  -- The caller is a member, or the organization's rows are as they were.
  abbrev Left : Context → String → World K → World K → Type 0
  Left ctx m w v =
      ((p : Principal) × (w' : World K) × Admitted env secret ctx m w p w'
        × IsMember env (with_principal ctx p) ns w')
      ⊎ SameOrg oid w.db v.db

  run_call-public :
      (ctx : Context) (c : ServerCall) (w : World K)
      → has_scope public_methods (server_method c) ≡ true
      → SameOrg oid w.db (run_call env secret ctx c w).1.db
  run_call-public ctx c w free = elim (run_call-SameTables env secret ctx w c) [
    | inl (o, this) ↦
        absurd (ground (arith, organization_call-protected env secret o, ap server_method this))
    | inr same ↦ SameTables-SameOrg w.db (run_call env secret ctx c w).1.db same
  ]

  run_call-SameOrg :
      (ctx : Context) (c : ServerCall) (w : World K)
      → Fresh w
      → IsMember env ctx ns w ⊎ SameOrg oid w.db (run_call env secret ctx c w).1.db
  run_call-SameOrg ctx c w fresh = elim (run_call-SameTables env secret ctx w c) [
    | inl (o, this) ↦
        subst (λ d. IsMember env ctx ns w ⊎ SameOrg oid w.db (run_call env secret ctx d w).1.db)
          (sym this) (run_organization_call-kept ctx o w fresh)
    | inr same ↦ inr (SameTables-SameOrg w.db (run_call env secret ctx c w).1.db same)
  ]

  run_call-Admitted :
      (ctx : Context) (c : ServerCall) (w : World K) (p : Principal) (w' : World K)
      → Fresh w
      → Admitted env secret ctx (server_method c) w p w'
      → Left ctx (server_method c) w (run_call env secret (with_principal ctx p) c w').1
  run_call-Admitted ctx c w p w' fresh (token, found, resolved, allowed) =
      let here = ap (λ r. r.1) resolved in
      let drawn = sym (ap (λ v. v.db.drawn) here) ∙ authenticate-drawn env secret token w in
      let first =
        subst (λ v. SameTables w.db v.db) here (authenticate-SameTables env secret w token) in
      let ran = (run_call env secret (with_principal ctx p) c w').1 in
      elim (run_call-SameOrg (with_principal ctx p) c w' (rw drawn fresh)) [
        | inl member ↦ inl (p, w', (token, found, resolved, allowed), member)
        | inr same ↦ inr (SameOrg-after w.db w'.db ran.db first same)
      ]

  -- A call of any of the four services leaves the row of an organization and its memberships as they
  -- were, unless the request's token resolves to an identity that may call the method and whose user
  -- is a member of the organization. The database draws an identifier of its own form for the next
  -- row, and not this organization's.
  pub serve_call-SameOrg :
      (ctx : Context) (c : ServerCall) (w : World K)
      → env.pg.uuid_in (env.pg.gen_random_uuid w.db.drawn) ≡ ok (env.pg.gen_random_uuid w.db.drawn)
      → env.pg.gen_random_uuid w.db.drawn ≢ oid
      → ((p : Principal) × (w' : World K) × Admitted env secret ctx (server_method c) w p w'
          × IsMember env (with_principal ctx p) ns w')
        ⊎ SameOrg oid w.db (serve_call env secret ctx c w).1.db
  serve_call-SameOrg ctx c w canonical fresh =
      let m = server_method c in
      subst (Left ctx m w) (sym (ap (λ r. r.1) (serve_call-interceptor env secret ctx c w))) (
        interceptor-admitted env secret ctx c m (run_call env secret) w (Left ctx m w)
          (inr (refl, refl))
          (λ token. inr (
            SameTables-SameOrg w.db (authenticate env secret token w).1.db
              (authenticate-SameTables env secret w token)))
          (λ free. inr (run_call-public ctx c w free))
          (λ p w' admitted before. run_call-Admitted ctx c w p w' (canonical, fresh) admitted))
