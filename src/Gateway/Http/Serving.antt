-- ===== src/Gateway/Http/Serving.antt =====
-- What an HTTP request does to the state: at most one call of the gRPC server.
use build_api.Common.{
  String, ◌==◌, Bool, true, false, ◌||◌, ◌≡◌, ◌⊎◌, inl, inr, refl, sym, ◌∙◌, ap, List, [], ◌∷◌, map,
  ok, Result-cases, Option-cases, Bool-cases,
}
use build_api.Common.Lists.{All, All-append, All-get_elem?, get_elem?}
use build_api.World.External.{Environment}
use build_api.World.Effect.{World, Action, state-wrap}
use build_api.Auth.Context.{Context}
use build_api.Auth.Rpc.{auth_method, serve_auth_call}
use build_api.Builders.Rpc.{builder_method, serve_builder_call}
use build_api.Organizations.Rpc.{organization_method, serve_organization_call}
use build_api.Templates.Rpc.{template_method, serve_template_call}
use build_api.Server.{
  ServerCall, auth_call, builder_call, organization_call, template_call, server_method, serve_call,
}
use build_api.Gateway.Edge.{
  HttpRequest, HttpResponse, ProtoMessage, cors_handler, root_mux, logout_handler, cors_headers,
}
use build_api.Gateway.Login.{auth_message}
use build_api.Gateway.Runtime.{gw_options, Runtime, PathParams, Pattern, Route, serve_route}
use build_api.Gateway.Http.{
  ServeMux, Endpoint, endpoint, endpoints, gw_mux, http_server, builder_message,
  organization_message, template_message,
}
use build_api.Gateway.Targets.{IsFaithful}
use build_api.Gateway.Targets.AuthRoutes.{auth_targets, AuthRefusal}
use build_api.Gateway.Targets.BuilderRoutes.{builder_targets, BuilderRefusal}
use build_api.Gateway.Targets.OrganizationRoutes.{organization_targets, OrganizationRefusal}
use build_api.Gateway.Targets.TemplateRoutes.{template_targets, TemplateRefusal}
use build_api.Gateway.Targets.Services.{routes-IsFaithful}

-- The requests that the program answers itself: a preflight, the health of the server, a logout.
abbrev pub is_local : HttpRequest → Bool
is_local r = r.method == "OPTIONS" || (r.path == "/health" || r.path == "/v1/auth/logout")

module _ {K Q : Type 0} (env : Environment K Q) (secret : String) (rt : Runtime) where
  -- A state is as it was, or as one call of the server leaves it, with the context that the gateway
  -- made of the request for the call's method.
  abbrev pub Served : HttpRequest → World K → World K → Type 0
  Served r w v =
      (v ≡ w)
      ⊎ ((ctx : Context) × (c : ServerCall) × (template : String) × (rt.annotate_context
              (gw_options rt) r (server_method c) template
            ≡ ok ctx)
          × (v ≡ (serve_call env secret ctx c w).1))

  abbrev Serves : Endpoint K → Type 0
  Serves e =
      (r : HttpRequest) (params : PathParams) (w : HttpResponse) (world : World K)
      → Served r world (e.handle r params w world).1

  module _ {Call Reply : Type 0} (client : Context → Call → Action K Reply)
      (method_of : Call → String) (targets_of : Call → List (String × String))
      (refused : HttpRequest → String → Type 0) (message : Reply → ProtoMessage)
      (wrap : Call → ServerCall) (named : (c : Call) → server_method (wrap c) ≡ method_of c)
      (same : (ctx : Context) (c : Call) (w : World K)
        → (serve_call env secret ctx (wrap c) w).1 ≡ (client ctx c w).1) where
    endpoint-Serves :
        (route : Route K Reply)
        → IsFaithful rt client method_of targets_of refused route
        → Serves (endpoint rt message route)
    unfolding serve_route
    endpoint-Serves route faithful r params w world =
        elim (Result-cases
          (rt.annotate_context (gw_options rt) r route.rpc_method route.path_template)) [
            | inr (s, failed) ↦ inl (rw failed refl)
            | inl (ctx, annotated) ↦ elim (faithful ctx r params world) [
              | inl (s, refusal, _) ↦ inl (rw (annotated, refusal) refl)
              | inr (c, rpc, _, ran) ↦ inr (
                ctx,
                wrap c,
                route.path_template,
                rw (named c, rpc) annotated,
                rw annotated (ap (λ x. x.1) ran ∙ sym (same ctx c world)),
              )
            ]
          ]

    endpoints-Serves :
        (routes : List (Route K Reply))
        → All (IsFaithful rt client method_of targets_of refused) routes
        → All Serves (map (endpoint rt message) routes)
    endpoints-Serves [] h = tt
    endpoints-Serves (route ∷ routes) (here, h) =
        (endpoint-Serves route here, endpoints-Serves routes h)

  endpoints-serve : All Serves (endpoints env secret rt)
  unfolding serve_call
  endpoints-serve =
      let (auth, builders, organizations, templates) =
        routes-IsFaithful rt (serve_auth_call env secret) (serve_builder_call env secret)
          (serve_organization_call env secret) (serve_template_call env secret) in
      All-append Serves _ _
        (All-append Serves _ _
          (All-append Serves _ _
            (endpoints-Serves (serve_auth_call env secret) auth_method auth_targets (AuthRefusal rt)
              auth_message auth_call (λ c. refl)
              (λ ctx c w. state-wrap (serve_auth_call env secret ctx c) _ w) _ auth)
            (endpoints-Serves (serve_builder_call env secret) builder_method builder_targets
              (BuilderRefusal rt) builder_message builder_call (λ c. refl)
              (λ ctx c w. state-wrap (serve_builder_call env secret ctx c) _ w) _ builders))
          (endpoints-Serves (serve_organization_call env secret) organization_method
            organization_targets (OrganizationRefusal rt) organization_message organization_call
            (λ c. refl) (λ ctx c w. state-wrap (serve_organization_call env secret ctx c) _ w) _
            organizations))
        (endpoints-Serves (serve_template_call env secret) template_method template_targets
          (TemplateRefusal rt) template_message template_call (λ c. refl)
          (λ ctx c w. state-wrap (serve_template_call env secret ctx c) _ w) _ templates)

  abbrev registered : List (String × Pattern)
  registered = map (λ e. (e.http_method, e.pattern)) (endpoints env secret rt)

  gw_mux-Served :
      (mux : ServeMux) (r : HttpRequest) (w : HttpResponse) (world : World K)
      → Served r world (gw_mux env secret rt mux r w world).1
  unfolding gw_mux
  gw_mux-Served mux r w world = elim (Option-cases (mux.dispatch registered r)) [
    | inl nothing ↦ inl (rw nothing refl)
    | inr ((i, params), matched) ↦ elim (Option-cases (get_elem? (endpoints env secret rt) i)) [
      | inl beyond ↦ inl (rw (matched, beyond) refl)
      | inr (e, found) ↦
          rw (matched, found)
            (All-get_elem? Serves (endpoints env secret rt) i e endpoints-serve found r params w
              world)
    ]
  ]

  -- A preflight request, a request for the health of the server and a logout leave the state alone. Any
  -- other HTTP request leaves it alone or does what one call of the gRPC server does to it: a call of
  -- the method that the gateway annotated the request's context with.
  pub http_server-Served :
      (mux : ServeMux) (cors_origins : List String) (r : HttpRequest) (w : HttpResponse)
      (world : World K)
      → ((is_local r ≡ true) × ((http_server env secret rt mux cors_origins r w world).1 ≡ world))
        ⊎ ((is_local r ≡ false)
            × Served r world (http_server env secret rt mux cors_origins r w world).1)
  unfolding http_server cors_handler root_mux logout_handler
  http_server-Served mux cors_origins r w world = elim (Bool-cases (r.method == "OPTIONS")) [
    | inl preflight ↦ inl (rw preflight (refl, refl))
    | inr a ↦ elim (Bool-cases (r.path == "/health")) [
      | inl health ↦ inl (rw (a, health) (refl, refl))
      | inr b ↦ elim (Bool-cases (r.path == "/v1/auth/logout")) [
        | inl logout ↦ inl (rw (a, b, logout) (refl, refl))
        | inr c ↦
            inr (rw (a, b, c) (refl, gw_mux-Served mux r (cors_headers cors_origins r w) world))
      ]
    ]
  ]
