-- ===== src/Server/Isolation.antt =====
-- Tenants: what a call of the server changes in the namespaces of the cluster.
use build_api.Common.{String, ◌≡◌, ◌≢◌, ◌⊎◌, inl, inr, refl, ◌∙◌, true, arith, subst, sym, ap}
use build_api.World.External.{Environment}
use build_api.World.Effect.{World, Action, ◌>>=◌, pure, state-wrap}
use build_api.Auth.Context.{Context, Principal, with_principal}
use build_api.Auth.Middleware.{authenticate}
use build_api.Auth.Keys.{lookup_api_key, select_live_key, touch_key}
use build_api.Auth.Jwt.{validate_access_token, parse_token}
use build_api.Auth.Middleware.Gate.{Admitted}
use build_api.Auth.Scopes.{has_scope, public_methods}
use build_api.Auth.Rpc.{run_auth_call}
use build_api.Auth.Rpc.Frame.{run_auth_call-cluster}
use build_api.Builders.Rpc.{BuilderCall, list, health, builder_method, run_builder_call}
use build_api.Builders.Service.{health_check}
use build_api.Organizations.Rpc.Access.{organization_call-protected}
use build_api.Templates.Rpc.Access.{namespace_of, template_call-protected}
use build_api.Builders.Rpc.Isolation.{run_builder_call-IsMember}
use build_api.Cluster.Isolation.{Isolated}
use build_api.Membership.Rows.{IsMember}
use build_api.Organizations.Rpc.{run_organization_call}
use build_api.Organizations.Rpc.Isolation.{run_organization_call-isolated}
use build_api.Templates.Rpc.{run_template_call}
use build_api.Templates.Rpc.Isolation.{run_template_call-IsMember}
use build_api.Server.{
  ServerCall, auth_call, builder_call, organization_call, template_call, server_method, run_call,
  serve_call,
}
use build_api.Server.Passing.{interceptor-admitted, serve_call-interceptor}
use build_api.Server.ReadOnly.{authenticate-cluster}

module _ {K Q : Type 0} (env : Environment K Q) (secret : String) where
  pub authenticate-drawn :
      (token : String) (w : World K) → (authenticate env secret token w).1.db.drawn ≡ w.db.drawn
  unfolding authenticate validate_access_token parse_token lookup_api_key select_live_key touch_key
  authenticate-drawn token w = ground arith

  run_builder_call-public :
      (ctx : Context) (c : BuilderCall) (w : World K)
      → has_scope public_methods (builder_method c) ≡ true
      → (run_builder_call env ctx c w).1.cluster ≡ w.cluster
  unfolding run_builder_call health_check has_scope
  run_builder_call-public ctx health w free = refl
  run_builder_call-public ctx (list ns) w free = cc
  run_builder_call-public ctx _ w free = cc

  -- A public method changes nothing in the cluster.
  run_call-public :
      (ctx : Context) (c : ServerCall) (w : World K)
      → has_scope public_methods (server_method c) ≡ true
      → (run_call env secret ctx c w).1.cluster ≡ w.cluster
  unfolding run_call
  run_call-public ctx (auth_call c) w free =
      ap (λ v. v.cluster) (state-wrap (run_auth_call env secret ctx c) _ w)
      ∙ run_auth_call-cluster env secret ctx w c
  run_call-public ctx (builder_call c) w free =
      ap (λ v. v.cluster) (state-wrap (run_builder_call env ctx c) _ w)
      ∙ run_builder_call-public ctx c w free
  run_call-public ctx (organization_call c) w free =
      absurd (ground (arith, organization_call-protected env secret c))
  run_call-public ctx (template_call c) w free =
      absurd (ground (arith, template_call-protected env secret c (namespace_of c) refl))

module _ {K Q T : Type 0} (env : Environment K Q) (secret : String) (ns : String) (view : K → T)
    (laws : Isolated env.kube ns view) where
  kept :
      {A B : Type 0} (ctx : Context) (w : World K) (m : Action K A) (f : A → B)
      → IsMember env ctx ns w ⊎ (view (m w).1.cluster ≡ view w.cluster)
      → IsMember env ctx ns w ⊎ (view ((m >>= (λ r. pure (f r))) w).1.cluster ≡ view w.cluster)
  kept ctx w m f =
      subst (λ v. IsMember env ctx ns w ⊎ (view v.cluster ≡ view w.cluster))
        (sym (state-wrap m f w))

  -- The caller is a member, or the view is as it was.
  abbrev Left : Context → String → World K → World K → Type 0
  Left ctx m w v =
      ((p : Principal) × (w' : World K) × Admitted env secret ctx m w p w'
        × IsMember env (with_principal ctx p) ns w')
      ⊎ (view v.cluster ≡ view w.cluster)

  run_call-isolated :
      (ctx : Context) (c : ServerCall) (w : World K)
      → env.pg.gen_random_uuid w.db.drawn ≢ ns
      → IsMember env ctx ns w ⊎ (view (run_call env secret ctx c w).1.cluster ≡ view w.cluster)
  unfolding run_call
  run_call-isolated ctx (auth_call c) w fresh = inr (
      ap (λ v. view v.cluster) (state-wrap (run_auth_call env secret ctx c) _ w)
      ∙ ap view (run_auth_call-cluster env secret ctx w c))
  run_call-isolated ctx (builder_call c) w fresh =
      kept ctx w (run_builder_call env ctx c) _ (run_builder_call-IsMember env ns view laws ctx w c)
  run_call-isolated ctx (organization_call c) w fresh =
      kept ctx w (run_organization_call env ctx c) _
        (run_organization_call-isolated env ns view laws ctx w c fresh)
  run_call-isolated ctx (template_call c) w fresh =
      kept ctx w (run_template_call env ctx c) _
        (run_template_call-IsMember env ns view laws ctx w c)

  run_call-Admitted :
      (ctx : Context) (c : ServerCall) (w : World K) (p : Principal) (w' : World K)
      → env.pg.gen_random_uuid w.db.drawn ≢ ns
      → Admitted env secret ctx (server_method c) w p w'
      → Left ctx (server_method c) w (run_call env secret (with_principal ctx p) c w').1
  run_call-Admitted ctx c w p w' fresh (token, found, known, allowed) =
      let here = ap (λ r. r.1) known in
      let drawn = sym (ap (λ v. v.db.drawn) here) ∙ authenticate-drawn env secret token w in
      let unmoved = sym (ap (λ v. v.cluster) here) ∙ authenticate-cluster env secret token w in
      elim (run_call-isolated (with_principal ctx p) c w'
        (subst (λ n. env.pg.gen_random_uuid n ≢ ns) (sym drawn) fresh)) [
          | inl member ↦ inl (p, w', (token, found, known, allowed), member)
          | inr same ↦ inr (same ∙ ap view unmoved)
        ]

  -- A call of any of the four services leaves a view of the cluster as it was that writes to other
  -- namespaces leave as it was, unless the request's token resolves to an identity that may call the
  -- method and whose user is a member of the view's organization. The database does not draw the
  -- view's namespace for a new organization.
  pub serve_call-isolated :
      (ctx : Context) (c : ServerCall) (w : World K)
      → env.pg.gen_random_uuid w.db.drawn ≢ ns
      → ((p : Principal) × (w' : World K) × Admitted env secret ctx (server_method c) w p w'
          × IsMember env (with_principal ctx p) ns w')
        ⊎ (view (serve_call env secret ctx c w).1.cluster ≡ view w.cluster)
  serve_call-isolated ctx c w fresh =
      let m = server_method c in
      subst (Left ctx m w) (sym (ap (λ r. r.1) (serve_call-interceptor env secret ctx c w))) (
        interceptor-admitted env secret ctx c m (run_call env secret) w (Left ctx m w) (inr refl)
          (λ token. inr (ap view (authenticate-cluster env secret token w)))
          (λ free. inr (ap view (run_call-public env secret ctx c w free)))
          (λ p w' admitted before. run_call-Admitted ctx c w p w' fresh admitted))
