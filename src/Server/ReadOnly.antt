-- ===== src/Server/ReadOnly.antt =====
-- What an API key cannot do on the server.
use build_api.Common.{String, ◌≡◌, refl, ◌∙◌, true, false, ok, arith, subst, sym, ap}
use build_api.World.External.{Environment}
use build_api.World.Effect.{World, state-wrap}
use build_api.Auth.Context.{Context, Principal, with_principal}
use build_api.Auth.Keys.{lookup_api_key}
use build_api.Auth.Jwt.{validate_access_token, parse_token}
use build_api.Auth.Rpc.{
  AuthCall, auth_method, register_user, log_in, me, list_keys, rename, refresh, create_key,
  revoke_key,
}
use build_api.Auth.Scopes.{has_scope, public_methods}
use build_api.Auth.Scopes.Table.{every, read_methods, read_scopes, enforce_access-read_only}
use build_api.Auth.Middleware.{extract_bearer_token, authenticate}
use build_api.Builders.Rpc.{run_builder_call}
use build_api.Builders.Rpc.Frame.{run_builder_call-db, run_builder_call-reads}
use build_api.Templates.Rpc.{run_template_call}
use build_api.Templates.Rpc.Frame.{run_template_call-db, run_template_call-reads}
use build_api.Organizations.Rpc.{run_organization_call}
use build_api.Organizations.Rpc.Frame.{run_organization_call-reads}
use build_api.Server.{
  ServerCall, auth_call, builder_call, organization_call, template_call, server_method, run_call,
  serve_call,
}
use build_api.Server.Passing.{interceptor-known, serve_call-interceptor}

no_auth_reads : (c : AuthCall) → has_scope read_methods (auth_method c) ≡ false
unfolding has_scope
no_auth_reads (register_user req) = refl
no_auth_reads (log_in req) = refl
no_auth_reads me = refl
no_auth_reads list_keys = refl
no_auth_reads (rename req) = refl
no_auth_reads (refresh req) = refl
no_auth_reads (create_key req) = refl
no_auth_reads (revoke_key req) = refl

module _ {K Q : Type 0} (env : Environment K Q) (secret : String) where
  pub authenticate-cluster :
      (token : String) (w : World K) → (authenticate env secret token w).1.cluster ≡ w.cluster
  unfolding authenticate validate_access_token parse_token lookup_api_key
  authenticate-cluster token w = ground arith

  abbrev Same : World K → World K → Type 0
  Same w v = (v.db ≡ w.db) × (v.cluster ≡ w.cluster)

  -- A method that only reads changes nothing, whichever service has it.
  run_call-reads :
      (ctx : Context) (c : ServerCall) (w : World K)
      → has_scope read_methods (server_method c) ≡ true
      → Same w (run_call env secret ctx c w).1
  unfolding run_call
  run_call-reads ctx (auth_call c) w h = absurd (ground (arith, no_auth_reads c))
  run_call-reads ctx (builder_call c) w h =
      subst (Same w) (sym (state-wrap (run_builder_call env ctx c) _ w))
        (run_builder_call-db env ctx c w, run_builder_call-reads env ctx c w h)
  run_call-reads ctx (organization_call c) w h =
      subst (Same w) (sym (state-wrap (run_organization_call env ctx c) _ w))
        (run_organization_call-reads env ctx c w h)
  run_call-reads ctx (template_call c) w h =
      subst (Same w) (sym (state-wrap (run_template_call env ctx c) _ w))
        (run_template_call-db env ctx c w, run_template_call-reads env ctx c w h)

  -- A request with an API key that holds read scopes only changes nothing, whichever method of the
  -- four services it calls, but for the four public ones: the cluster is as it was, and the tables are
  -- those that the look-up of the key left.
  pub serve_call-read_only :
      (ctx : Context) (c : ServerCall) (w : World K) (token : String) (p : Principal)
      → has_scope public_methods (server_method c) ≡ false
      → extract_bearer_token ctx ≡ ok token
      → (authenticate env secret token w).0 ≡ ok p
      → p.full_access ≡ false
      → every (has_scope read_scopes) p.scopes ≡ true
      → ((serve_call env secret ctx c w).1.db ≡ (authenticate env secret token w).1.db)
        × ((serve_call env secret ctx c w).1.cluster ≡ w.cluster)
  serve_call-read_only ctx c w token p protected found known key reads =
      let v = (authenticate env secret token w).1 in
      let unmoved = authenticate-cluster token w in
      subst (λ u. (u.db ≡ v.db) × (u.cluster ≡ w.cluster))
        (sym (ap (λ r. r.1) (serve_call-interceptor env secret ctx c w)))
        (interceptor-known env secret ctx c (server_method c) (run_call env secret) w
          (λ u. (u.db ≡ v.db) × (u.cluster ≡ w.cluster)) protected token p found known
          (refl, unmoved)
          (λ allowed.
            let read = enforce_access-read_only (server_method c) p key reads allowed in
            let same = run_call-reads (with_principal ctx p) c v read in
            (same.0, same.1 ∙ unmoved)))
