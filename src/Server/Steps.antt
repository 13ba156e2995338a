-- ===== src/Server/Steps.antt =====
-- The count of the calls of outside services, which no call of the server takes back.
use build_api.Common.{
  ℕ, suc, String, ◌≤◌, ◌≡◌, refl, List, [], ◌∷◌, arith, subst, sym, ap, Result-cases, inl, inr,
}
use build_api.World.Tables.{OrgRow}
use build_api.World.External.{Environment}
use build_api.World.Effect.{World, state-wrap}
use build_api.Auth.Context.{Context, Principal, with_principal, user_id_from_context}
use build_api.Auth.Middleware.{authenticate}
use build_api.Auth.Middleware.Gate.{Admitted}
use build_api.Auth.Keys.{lookup_api_key, generate_user_api_key}
use build_api.Auth.Jwt.{
  validate_access_token, validate_refresh_token, parse_token, create_access_token,
  create_refresh_token,
}
use build_api.Auth.Service.{
  register, login, get_me, update_profile, refresh_token, create_user_api_key, list_user_api_keys,
  revoke_user_api_key,
}
use build_api.Auth.Rpc.{
  AuthCall, run_auth_call, register_user, log_in, me, list_keys, rename, refresh, create_key,
  revoke_key,
}
use build_api.Builders.Service.{
  list_builders, get_builder, create_builder, update_builder, delete_builder, wake_builder,
  health_check,
}
use build_api.Builders.Rpc as Builders
use build_api.Builders.Rpc.{BuilderCall, run_builder_call}
use build_api.Cluster.{ensure_org_namespace, delete_org_namespace, count_builders}
use build_api.Membership.{ensure_org_member}
use build_api.Organizations.Service.{
  list_organizations, with_builders, get_organization, create_organization, update_organization,
  delete_organization, list_organization_members, store_organization, or_roll_back, apply_update,
  count_builders_in_namespace,
}
use build_api.Organizations.Sql.{select_orgs, select_role}
use build_api.Organizations.Update.{assemble, update_org}
use build_api.Organizations.Service.Atomic.{create_organization-cases}
use build_api.Organizations.Rpc as Organizations
use build_api.Organizations.Rpc.{OrganizationCall, run_organization_call}
use build_api.Templates.Service.{
  list_templates, get_template, create_template, update_template, delete_template,
}
use build_api.Templates.Rpc as Templates
use build_api.Templates.Rpc.{TemplateCall, run_template_call}
use build_api.Api.AuthMessages.{
  RegisterRequest, LoginRequest, RefreshTokenRequest, CreateUserApiKeyRequest,
}
use build_api.Api.OrganizationMessages.{CreateOrganizationRequest, UpdateOrganizationRequest}
use build_api.Server.{
  ServerCall, auth_call, builder_call, organization_call, template_call, server_method, run_call,
  serve_call,
}
use build_api.Server.Passing.{interceptor-admitted, serve_call-interceptor}

module _ {K Q : Type 0} (env : Environment K Q) (secret : String) where
  pub authenticate-step :
      (token : String) (w : World K) → w.step ≤ (authenticate env secret token w).1.step
  unfolding authenticate validate_access_token parse_token lookup_api_key
  authenticate-step token w = ground arith

  register-step :
      (req : RegisterRequest) (w : World K) → w.step ≤ (register env secret req w).1.step
  unfolding register create_access_token create_refresh_token
  register-step req w = ground arith

  login-step : (req : LoginRequest) (w : World K) → w.step ≤ (login env secret req w).1.step
  unfolding login create_access_token create_refresh_token
  login-step req w = ground arith

  refresh_token-step :
      (req : RefreshTokenRequest) (w : World K) → w.step ≤ (refresh_token env secret req w).1.step
  unfolding refresh_token validate_refresh_token parse_token create_access_token
  refresh_token-step req w = ground arith

  module _ (ctx : Context) where
    create_user_api_key-step :
        (req : CreateUserApiKeyRequest) (w : World K)
        → w.step ≤ (create_user_api_key env secret ctx req w).1.step
    unfolding create_user_api_key generate_user_api_key
    create_user_api_key-step req w = ground arith

    run_auth_call-step :
        (c : AuthCall) (w : World K) → w.step ≤ (run_auth_call env secret ctx c w).1.step
    unfolding run_auth_call get_me update_profile list_user_api_keys revoke_user_api_key
    run_auth_call-step (register_user req) w = ground (arith, register-step req w)
    run_auth_call-step (log_in req) w = ground (arith, login-step req w)
    run_auth_call-step me w = ground arith
    run_auth_call-step (rename req) w = ground arith
    run_auth_call-step (refresh req) w = ground (arith, refresh_token-step req w)
    run_auth_call-step (create_key req) w = ground (arith, create_user_api_key-step req w)
    run_auth_call-step list_keys w = ground arith
    run_auth_call-step (revoke_key req) w = ground arith

module _ {K Q : Type 0} (env : Environment K Q) (ctx : Context) where
  ensure_org_member-step :
      (ns : String) (w : World K) → w.step ≤ (ensure_org_member env ctx ns w).1.step
  unfolding ensure_org_member
  ensure_org_member-step ns w = ground arith

  run_builder_call-step :
      (c : BuilderCall) (w : World K) → w.step ≤ (run_builder_call env ctx c w).1.step
  unfolding run_builder_call list_builders get_builder create_builder update_builder delete_builder
      wake_builder health_check ensure_org_namespace
  run_builder_call-step (Builders.list ns) w = ground (arith, ensure_org_member-step ns w)
  run_builder_call-step (Builders.get req) w =
      ground (arith, ensure_org_member-step req.namespace w)
  run_builder_call-step (Builders.delete req) w =
      ground (arith, ensure_org_member-step req.namespace w)
  run_builder_call-step (Builders.wake req) w =
      ground (arith, ensure_org_member-step req.namespace w)
  run_builder_call-step (Builders.create req) w =
      ground (arith, ensure_org_member-step req.namespace w)
  run_builder_call-step (Builders.update req) w =
      ground (arith, ensure_org_member-step req.namespace w)
  run_builder_call-step Builders.health w = ground arith

  run_template_call-step :
      (c : TemplateCall) (w : World K) → w.step ≤ (run_template_call env ctx c w).1.step
  unfolding run_template_call list_templates get_template create_template update_template
      delete_template
  run_template_call-step (Templates.list ns) w = ground (arith, ensure_org_member-step ns w)
  run_template_call-step (Templates.get req) w =
      ground (arith, ensure_org_member-step req.namespace w)
  run_template_call-step (Templates.delete req) w =
      ground (arith, ensure_org_member-step req.namespace w)
  run_template_call-step (Templates.create req) w =
      ground (arith, ensure_org_member-step req.namespace w)
  run_template_call-step (Templates.update req) w =
      ground (arith, ensure_org_member-step req.namespace w)

  with_builders-step :
      (rows : List (OrgRow × ℕ)) (w : World K) → (with_builders env rows w).1.step ≡ w.step
  unfolding with_builders count_builders_in_namespace count_builders
  with_builders-step [] w = refl
  with_builders-step ((o, n) ∷ rows) w = ground (arith, with_builders-step rows w)

  list_organizations-step : (w : World K) → w.step ≤ (list_organizations env ctx w).1.step
  unfolding list_organizations
  list_organizations-step w =
      let asked : World K = record w {
        db = (select_orgs env.pg w.db_now (user_id_from_context ctx) w.db).1;
        step = suc w.step;
      } in
      elim (Result-cases (select_orgs env.pg w.db_now (user_id_from_context ctx) w.db).0) [
        | inr (e, failed) ↦ ground arith
        | inl (rows, found) ↦ ground (arith, with_builders-step rows asked)
      ]

  get_organization-step :
      (id : String) (w : World K) → w.step ≤ (get_organization env ctx id w).1.step
  unfolding get_organization count_builders_in_namespace count_builders
  get_organization-step id w = ground arith

  store_organization-step :
      (user_id name slug plan : String) (w : World K)
      → w.step ≤ (store_organization env user_id name slug plan w).1.step
  unfolding store_organization or_roll_back ensure_org_namespace count_builders_in_namespace
      count_builders
  store_organization-step user_id name slug plan w = ground arith

  apply_update-step :
      (req : UpdateOrganizationRequest) (w : World K) → w.step ≤ (apply_update env ctx req w).1.step
  unfolding apply_update
  apply_update-step req w =
      let a = assemble env.lower_beyond req in
      let written : World K = record w {
        db = (update_org env.pg a.set_clause (req.id ∷ a.args) w.db).1;
        step = suc w.step;
      } in
      ground (arith, get_organization-step req.id w, get_organization-step req.id written)

  create_organization-step :
      (req : CreateOrganizationRequest) (w : World K)
      → w.step ≤ (create_organization env ctx req w).1.step
  create_organization-step req w = elim (create_organization-cases env ctx req w) [
    | inl (s, refused) ↦ rw refused (omega arith)
    | inr (stored, _, _, _) ↦ rw stored (store_organization-step _ _ _ _ w)
  ]

  update_organization-step :
      (req : UpdateOrganizationRequest) (w : World K)
      → w.step ≤ (update_organization env ctx req w).1.step
  unfolding update_organization
  update_organization-step req w =
      let w' = record w {
        db = (select_role env.pg w.db_now (user_id_from_context ctx) req.id w.db).1;
        step = suc w.step;
      } in
      ground (arith, apply_update-step req w')

  delete_organization-step :
      (id : String) (w : World K) → w.step ≤ (delete_organization env ctx id w).1.step
  unfolding delete_organization delete_org_namespace
  delete_organization-step id w = ground arith

  list_organization_members-step :
      (id : String) (w : World K) → w.step ≤ (list_organization_members env ctx id w).1.step
  unfolding list_organization_members
  list_organization_members-step id w = ground arith

  run_organization_call-step :
      (c : OrganizationCall) (w : World K) → w.step ≤ (run_organization_call env ctx c w).1.step
  unfolding run_organization_call
  run_organization_call-step Organizations.list w = ground (arith, list_organizations-step w)
  run_organization_call-step (Organizations.get id) w = ground (arith, get_organization-step id w)
  run_organization_call-step (Organizations.members id) w =
      ground (arith, list_organization_members-step id w)
  run_organization_call-step (Organizations.create req) w =
      ground (arith, create_organization-step req w)
  run_organization_call-step (Organizations.update req) w =
      ground (arith, update_organization-step req w)
  run_organization_call-step (Organizations.delete id) w =
      ground (arith, delete_organization-step id w)

module _ {K Q : Type 0} (env : Environment K Q) (secret : String) where
  abbrev After : World K → World K → Type 0
  After w v = w.step ≤ v.step

  run_call-step :
      (ctx : Context) (c : ServerCall) (w : World K) → After w (run_call env secret ctx c w).1
  unfolding run_call
  run_call-step ctx (auth_call c) w =
      subst (After w) (sym (state-wrap (run_auth_call env secret ctx c) _ w))
        (run_auth_call-step env secret ctx c w)
  run_call-step ctx (builder_call c) w =
      subst (After w) (sym (state-wrap (run_builder_call env ctx c) _ w))
        (run_builder_call-step env ctx c w)
  run_call-step ctx (organization_call c) w =
      subst (After w) (sym (state-wrap (run_organization_call env ctx c) _ w))
        (run_organization_call-step env ctx c w)
  run_call-step ctx (template_call c) w =
      subst (After w) (sym (state-wrap (run_template_call env ctx c) _ w))
        (run_template_call-step env ctx c w)

  pub Admitted-step :
      (ctx : Context) (m : String) (w : World K) (p : Principal) (w' : World K)
      → Admitted env secret ctx m w p w'
      → w.step ≤ w'.step
  Admitted-step ctx m w p w' (token, found, known, allowed) =
      subst (After w) (ap (λ r. r.1) known) (authenticate-step env secret token w)

  -- No call of the server takes back the count.
  pub serve_call-step :
      (ctx : Context) (c : ServerCall) (w : World K)
      → w.step ≤ (serve_call env secret ctx c w).1.step
  serve_call-step ctx c w =
      subst (After w) (sym (ap (λ r. r.1) (serve_call-interceptor env secret ctx c w))) (
        interceptor-admitted env secret ctx c (server_method c) (run_call env secret) w (After w)
          (omega arith) (λ token. authenticate-step env secret token w)
          (λ free. run_call-step ctx c w)
          (λ p w' admitted before.
            after_both (Admitted-step ctx _ w p w' admitted)
              (run_call-step (with_principal ctx p) c w')))
    where
      after_both : {a b c : ℕ} → a ≤ b → b ≤ c → a ≤ c
      after_both h k = omega arith
