-- ===== src/Server/Passing.antt =====
-- How the state changes in a call of the server: the interceptor resolves the token, and the service
-- runs where the identity may call the method.
use build_api.Common.{
  String, ◌≡◌, refl, ap, true, false, inl, inr, ok, err, Result-cases, Bool-cases,
}
use build_api.Status.{Status}
use build_api.World.External.{Environment}
use build_api.World.Effect.{World, Action, ◌>>=◌, pure}
use build_api.Auth.Context.{Context, Principal, with_principal}
use build_api.Auth.Scopes.{has_scope, public_methods, enforce_access}
use build_api.Auth.Rpc.{run_auth_call, serve_auth_call}
use build_api.Builders.Rpc.{run_builder_call, serve_builder_call}
use build_api.Organizations.Rpc.{run_organization_call, serve_organization_call}
use build_api.Templates.Rpc.{run_template_call, serve_template_call}
use build_api.Auth.Middleware.Gate.{Admitted}
use build_api.Auth.Middleware.{extract_bearer_token, authenticate, unary_server_interceptor}
use build_api.Server.{
  ServerCall, auth_call, builder_call, organization_call, template_call, server_method, run_call,
  serve_call,
}

module _ {K Q : Type 0} (env : Environment K Q) (secret : String) where
  module _ {Req Resp : Type 0} (ctx : Context) (req : Req) (m : String)
      (h : Context → Req → Action K Resp) (w : World K) (P : World K → Type 0) where
    interceptor-public :
        has_scope public_methods m ≡ true
        → P (h ctx req w).1
        → P (unary_server_interceptor env secret ctx req m h w).1
    unfolding unary_server_interceptor
    interceptor-public free done = rw free done

    interceptor-anonymous :
        has_scope public_methods m ≡ false
        → (s : Status) → extract_bearer_token ctx ≡ err s
        → P w
        → P (unary_server_interceptor env secret ctx req m h w).1
    unfolding unary_server_interceptor
    interceptor-anonymous protected s missing before = rw (protected, missing) before

    pub interceptor-known :
        has_scope public_methods m ≡ false
        → (token : String) (p : Principal) → extract_bearer_token ctx ≡ ok token
        → (authenticate env secret token w).0 ≡ ok p
        → P (authenticate env secret token w).1
        → (enforce_access m p ≡ ok tt
            → P (h (with_principal ctx p) req (authenticate env secret token w).1).1)
        → P (unary_server_interceptor env secret ctx req m h w).1
    unfolding unary_server_interceptor
    interceptor-known protected token p found known before after =
        elim (Result-cases (enforce_access m p)) [
          | inr (s, denied) ↦ rw (protected, found, known, denied) before
          | inl (_, allowed) ↦ rw (protected, found, known, allowed) (after allowed)
        ]

    interceptor-unknown :
        has_scope public_methods m ≡ false
        → (token : String) (s : Status) → extract_bearer_token ctx ≡ ok token
        → (authenticate env secret token w).0 ≡ err s
        → P (authenticate env secret token w).1
        → P (unary_server_interceptor env secret ctx req m h w).1
    unfolding unary_server_interceptor
    interceptor-unknown protected token s found unknown before =
        rw (protected, found, unknown) before

    -- What holds before and after the token was resolved, and stays true when the service runs for
    -- an admitted identity, holds after the call.
    pub interceptor-admitted :
        P w
        → ((token : String) → P (authenticate env secret token w).1)
        → (has_scope public_methods m ≡ true → P (h ctx req w).1)
        → ((p : Principal) (w' : World K)
            → Admitted env secret ctx m w p w'
            → P w'
            → P (h (with_principal ctx p) req w').1)
        → P (unary_server_interceptor env secret ctx req m h w).1
    interceptor-admitted before resolved ran after =
        elim (Bool-cases (has_scope public_methods m)) [
          | inl free ↦ interceptor-public free (ran free)
          | inr protected ↦ elim (Result-cases (extract_bearer_token ctx)) [
            | inr (s, missing) ↦ interceptor-anonymous protected s missing before
            | inl (token, found) ↦ elim (Result-cases (authenticate env secret token w).0) [
              | inr (s, unknown) ↦
                  interceptor-unknown protected token s found unknown (resolved token)
              | inl (p, known) ↦
                  interceptor-known protected token p found known (resolved token) (λ allowed.
                    after p _
                      (
                        token,
                        found,
                        ap (λ r. (r, (authenticate env secret token w).1)) known,
                        allowed,
                      )
                      (resolved token))
            ]
          ]
        ]

  -- The interceptor around a service and the wrapping of its reply is the interceptor around both.
  interceptor-wrap :
      {Req Req' A B : Type 0} (ctx : Context) (req : Req) (req' : Req') (m : String)
      (h : Context → Req → Action K A) (h' : Context → Req' → Action K B) (f : A → B)
      → ((c : Context) (w : World K) → (h c req >>= (λ r. pure (f r))) w ≡ h' c req' w)
      → (w : World K)
      → (unary_server_interceptor env secret ctx req m h >>= (λ r. pure (f r))) w
        ≡ unary_server_interceptor env secret ctx req' m h' w
  unfolding unary_server_interceptor
  interceptor-wrap ctx req req' m h h' f same w = elim (Bool-cases (has_scope public_methods m)) [
    | inl free ↦ rw free (same ctx w)
    | inr protected ↦ elim (Result-cases (extract_bearer_token ctx)) [
      | inr (s, missing) ↦ rw (protected, missing)
      | inl (token, found) ↦ elim (Result-cases (authenticate env secret token w).0) [
        | inr (s, unknown) ↦ rw (protected, found, unknown)
        | inl (p, known) ↦ elim (Result-cases (enforce_access m p)) [
          | inr (s, denied) ↦ rw (protected, found, known, denied)
          | inl (_, allowed) ↦
              rw (protected, found, known, allowed)
                (same (with_principal ctx p) (authenticate env secret token w).1)
        ]
      ]
    ]
  ]

  -- All four services stand behind the same interceptor: a call of the server is the interceptor
  -- around the service that the call is for, with the method name of the call.
  pub serve_call-interceptor :
      (ctx : Context) (c : ServerCall) (w : World K)
      → serve_call env secret ctx c w
        ≡ unary_server_interceptor env secret ctx c (server_method c) (run_call env secret) w
  unfolding serve_call run_call serve_auth_call serve_builder_call serve_organization_call
      serve_template_call
  serve_call-interceptor ctx (auth_call c) w =
      interceptor-wrap ctx c (auth_call c) _ (run_auth_call env secret) (run_call env secret) _
        (λ d v. refl) w
  serve_call-interceptor ctx (builder_call c) w =
      interceptor-wrap ctx c (builder_call c) _ (run_builder_call env) (run_call env secret) _
        (λ d v. refl) w
  serve_call-interceptor ctx (organization_call c) w =
      interceptor-wrap ctx c (organization_call c) _ (run_organization_call env)
        (run_call env secret) _ (λ d v. refl) w
  serve_call-interceptor ctx (template_call c) w =
      interceptor-wrap ctx c (template_call c) _ (run_template_call env) (run_call env secret) _
        (λ d v. refl) w
