-- ===== src/Server/Escalation.antt =====
-- API keys and the accounts: users, and the keys themselves.
use build_api.Common.{String, ◌≡◌, refl, true, false, inl, inr, ok, arith, subst, sym, ap}
use build_api.World.Tables.{Db}
use build_api.World.External.{Environment}
use build_api.World.Effect.{World, state-wrap}
use build_api.Auth.Context.{Context, Principal, with_principal}
use build_api.Auth.Rpc.{
  AuthCall, auth_method, register_user, log_in, me, list_keys, rename, refresh, create_key,
  revoke_key,
}
use build_api.Auth.Scopes.{has_scope, public_methods, jwt_only_methods, enforce_access}
use build_api.Auth.Scopes.Access.{enforce_access_iff}
use build_api.Auth.Middleware.{extract_bearer_token, authenticate}
use build_api.Builders.Rpc.{run_builder_call}
use build_api.Builders.Rpc.Frame.{run_builder_call-db}
use build_api.Templates.Rpc.{run_template_call}
use build_api.Templates.Rpc.Frame.{run_template_call-db}
use build_api.Organizations.Sql.{insert_org, insert_owner, delete_org}
use build_api.Organizations.Update.{update_org}
use build_api.Organizations.Rpc.{run_organization_call}
use build_api.Invariant.Calls.{run_organization_call-closed}
use build_api.Invariant.Runs.{
  OrganizationStatement, org_inserted, owner_inserted, org_updated, org_deleted,
}
use build_api.Server.{
  ServerCall, auth_call, builder_call, organization_call, template_call, server_method, run_call,
  serve_call,
}
use build_api.Server.Passing.{interceptor-known, serve_call-interceptor}

-- The accounts of two tables agree.
abbrev SameAccounts : Db → Db → Type 0
SameAccounts a b = (b.users ≡ a.users) × (b.keys ≡ a.keys)

private_auth_methods :
    (c : AuthCall)
    → has_scope public_methods (auth_method c) ≡ false
    → has_scope jwt_only_methods (auth_method c) ≡ true
unfolding has_scope
private_auth_methods (register_user req) h = cc
private_auth_methods (log_in req) h = cc
private_auth_methods me h = refl
private_auth_methods list_keys h = refl
private_auth_methods (rename req) h = refl
private_auth_methods (refresh req) h = cc
private_auth_methods (create_key req) h = refl
private_auth_methods (revoke_key req) h = refl

module _ {K Q : Type 0} (env : Environment K Q) (secret : String) where
  OrganizationStatement-accounts :
      (d : Db) {a b : Db} → SameAccounts d a → OrganizationStatement env.pg a b → SameAccounts d b
  unfolding insert_org insert_owner update_org delete_org
  OrganizationStatement-accounts d h (org_inserted now name slug plan db) = ground arith
  OrganizationStatement-accounts d h (owner_inserted now user_id org_id db) = ground arith
  OrganizationStatement-accounts d h (org_updated clauses args db) = ground arith
  OrganizationStatement-accounts d h (org_deleted now org_id db) = ground arith

  -- No call of the three services that keys may use changes an account.
  run_call-accounts :
      (ctx : Context) (c : ServerCall) (p : Principal) (w : World K)
      → p.full_access ≡ false
      → has_scope public_methods (server_method c) ≡ false
      → enforce_access (server_method c) p ≡ ok tt
      → SameAccounts w.db (run_call env secret ctx c w).1.db
  unfolding run_call
  run_call-accounts ctx (auth_call c) p w key protected allowed =
      elim ((enforce_access_iff (auth_method c) p).0 allowed) [
        | inl full ↦ absurd (ground arith)
        | inr (_, _, _, not_reserved) ↦ absurd (ground (arith, private_auth_methods c protected))
      ]
  run_call-accounts ctx (builder_call c) p w key protected allowed =
      subst (λ v. SameAccounts w.db v.db) (sym (state-wrap (run_builder_call env ctx c) _ w))
        (let same = run_builder_call-db env ctx c w in
          (ap (λ d. d.users) same, ap (λ d. d.keys) same))
  run_call-accounts ctx (organization_call c) p w key protected allowed =
      subst (λ v. SameAccounts w.db v.db) (sym (state-wrap (run_organization_call env ctx c) _ w))
        (run_organization_call-closed env w (SameAccounts w.db) (refl, refl)
          (λ a b h s. OrganizationStatement-accounts w.db h s) ctx c)
  run_call-accounts ctx (template_call c) p w key protected allowed =
      subst (λ v. SameAccounts w.db v.db) (sym (state-wrap (run_template_call env ctx c) _ w))
        (let same = run_template_call-db env ctx c w in
          (ap (λ d. d.users) same, ap (λ d. d.keys) same))

  -- A request with an API key, whatever its scopes, changes no user and no key, makes no key and
  -- revokes none, whichever method of the four services it calls, but for the four public ones: users
  -- and keys are those that the look-up of the key left.
  pub serve_call-no_escalation :
      (ctx : Context) (c : ServerCall) (w : World K) (token : String) (p : Principal)
      → has_scope public_methods (server_method c) ≡ false
      → extract_bearer_token ctx ≡ ok token
      → (authenticate env secret token w).0 ≡ ok p
      → p.full_access ≡ false
      → ((serve_call env secret ctx c w).1.db.users ≡ (authenticate env secret token w).1.db.users)
        × ((serve_call env secret ctx c w).1.db.keys ≡ (authenticate env secret token w).1.db.keys)
  serve_call-no_escalation ctx c w token p protected found known key =
      let v = (authenticate env secret token w).1 in
      subst (λ u. SameAccounts v.db u.db)
        (sym (ap (λ r. r.1) (serve_call-interceptor env secret ctx c w)))
        (interceptor-known env secret ctx c (server_method c) (run_call env secret) w
          (λ u. SameAccounts v.db u.db) protected token p found known (refl, refl)
          (run_call-accounts (with_principal ctx p) c p v key protected))
