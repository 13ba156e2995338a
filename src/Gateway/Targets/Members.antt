-- ===== src/Gateway/Targets/Members.antt =====
-- From an HTTP request to a membership: the routes of builders and templates with the server of this
-- program behind the gateway.
use build_api.Common.{ℕ, String, ◌≡◌, ◌⊎◌, inl, inr, some, List, Result, ok, err, refl, subst, ap}
use build_api.Common.Lists.{All, get_elem?, All-get_elem?}
use build_api.Status.{Status}
use build_api.Api.Methods.{health_check_method}
use build_api.Auth.Context.{Context, Principal, with_principal}
use build_api.World.External.{Environment}
use build_api.World.Effect.{World, Action}
use build_api.Membership.Rows.{IsMember}
use build_api.Auth.Middleware.Gate.{Admitted}
use build_api.Builders.Rpc.{BuilderCall, BuilderReply, builder_method, serve_builder_call}
use build_api.Builders.Rpc.Access.{serve_builder_call-IsMember}
use build_api.Templates.Rpc.{TemplateCall, TemplateReply, template_method, serve_template_call}
use build_api.Templates.Rpc.Access.{serve_template_call-IsMember}
use build_api.Gateway.Edge.{HttpRequest}
use build_api.Gateway.Runtime.{Runtime, PathParams, Route}
use build_api.Gateway.BuilderProxy.{register_build_api_handler_client}
use build_api.Gateway.TemplateProxy.{register_template_service_handler_client}
use build_api.Gateway.Targets.{Carries, IsFaithful}
use build_api.Gateway.Targets.BuilderRoutes.{
  builder_targets, BuilderRefusal, builder_routes-IsFaithful,
}
use build_api.Gateway.Targets.TemplateRoutes.{
  template_targets, TemplateRefusal, template_routes-IsFaithful,
}

module _ {K Q : Type 0} (env : Environment K Q) (secret : String) (rt : Runtime) where
  -- The path has a namespace, and the request came from a member of that organization who may call
  -- the method.
  abbrev pub ByMember : String → Context → PathParams → World K → Type 0
  ByMember rpc ctx params w =
      (namespace : String) × Carries rt params ("namespace", namespace)
      × ((p : Principal) × (w' : World K) × Admitted env secret ctx rpc w p w'
          × IsMember env (with_principal ctx p) namespace w')

  fails_not : {A : Type 0} → (x : Result Status A) (s : Status) (a : A) → x ≡ err s → x ≡ ok a → ⊥
  fails_not x s a h k = cc

  builder_call :
      (ctx : Context) (params : PathParams) (call : BuilderCall) (w : World K) (r : BuilderReply)
      → All (Carries rt params) (builder_targets call)
      → (serve_builder_call env secret ctx call w).0 ≡ ok r
      → (builder_method call ≡ health_check_method) ⊎ ByMember (builder_method call) ctx params w
  builder_call ctx params BuilderCall.health w r carried answered = inl refl
  builder_call ctx params (BuilderCall.list ns) w r carried answered = inr (
    ns,
    carried.0,
    serve_builder_call-IsMember env secret ctx (BuilderCall.list ns) ns w r refl answered,
  )
  builder_call ctx params (BuilderCall.get req) w r carried answered = inr (
    req.namespace,
    carried.0,
    serve_builder_call-IsMember env secret ctx (BuilderCall.get req) req.namespace w r refl
        answered,
  )
  builder_call ctx params (BuilderCall.delete req) w r carried answered = inr (
    req.namespace,
    carried.0,
    serve_builder_call-IsMember env secret ctx (BuilderCall.delete req) req.namespace w r refl
        answered,
  )
  builder_call ctx params (BuilderCall.wake req) w r carried answered = inr (
    req.namespace,
    carried.0,
    serve_builder_call-IsMember env secret ctx (BuilderCall.wake req) req.namespace w r refl
        answered,
  )
  builder_call ctx params (BuilderCall.create req) w r carried answered = inr (
    req.namespace,
    carried.0,
    serve_builder_call-IsMember env secret ctx (BuilderCall.create req) req.namespace w r refl
        answered,
  )
  builder_call ctx params (BuilderCall.update req) w r carried answered = inr (
    req.namespace,
    carried.0,
    serve_builder_call-IsMember env secret ctx (BuilderCall.update req) req.namespace w r refl
        answered,
  )

  from_faithful :
      {Call Reply : Type 0}
      → (serve : Context → Call → Action K Reply) (method_of : Call → String)
        (targets_of : Call → List (String × String)) (refused : HttpRequest → String → Type 0)
        (G : String → Context → PathParams → World K → Type 0)
      → ((ctx : Context) (params : PathParams) (call : Call) (w : World K) (r : Reply)
          → All (Carries rt params) (targets_of call)
          → (serve ctx call w).0 ≡ ok r
          → G (method_of call) ctx params w)
      → (routes : List (Route K Reply))
      → All (IsFaithful rt serve method_of targets_of refused) routes
      → (i : ℕ) (route : Route K Reply) → get_elem? routes i ≡ some route
      → (ctx : Context) (req : HttpRequest) (params : PathParams) (w : World K) (r : Reply)
      → (route.request ctx req params w).0 ≡ ok r
      → G route.rpc_method ctx params w
  from_faithful serve method_of targets_of refused G h routes faithful i route at_i ctx req params w
        r answered =
      elim (All-get_elem? (IsFaithful rt serve method_of targets_of refused) routes i route faithful
        at_i ctx req params w) [
          | inl (s, failed, reason) ↦
              absurd
                (fails_not (route.request ctx req params w).0 s r (ap (λ x. x.0) failed) answered)
          | inr (call, named, carried, ran) ↦
              subst (λ m. G m ctx params w) named
                (h ctx params call w r carried (rw ran at answered))
        ]

  -- A route of the builder service answers without an error only where it is the health check, or
  -- where its path has a namespace, the request carried a token of an identity that may call the
  -- route's method, and the identity's user was a member of that organization when the handler
  -- began. What the body says about the namespace does not matter.
  pub builder_routes-ByMember :
      (i : ℕ) (route : Route K BuilderReply)
      → get_elem? (register_build_api_handler_client rt (serve_builder_call env secret)) i
        ≡ some route
      → (ctx : Context) (req : HttpRequest) (params : PathParams) (w : World K) (r : BuilderReply)
      → (route.request ctx req params w).0 ≡ ok r
      → (route.rpc_method ≡ health_check_method) ⊎ ByMember route.rpc_method ctx params w
  builder_routes-ByMember =
      from_faithful (serve_builder_call env secret) builder_method builder_targets
        (BuilderRefusal rt) (λ m ctx params w. (m ≡ health_check_method) ⊎ ByMember m ctx params w)
        builder_call _ (builder_routes-IsFaithful rt (serve_builder_call env secret))

  template_call :
      (ctx : Context) (params : PathParams) (call : TemplateCall) (w : World K) (r : TemplateReply)
      → All (Carries rt params) (template_targets call)
      → (serve_template_call env secret ctx call w).0 ≡ ok r
      → ByMember (template_method call) ctx params w
  template_call ctx params (TemplateCall.list ns) w r carried answered = (
    ns,
    carried.0,
    serve_template_call-IsMember env secret ctx (TemplateCall.list ns) ns w r refl answered,
  )
  template_call ctx params (TemplateCall.get req) w r carried answered = (
    req.namespace,
    carried.0,
    serve_template_call-IsMember env secret ctx (TemplateCall.get req) req.namespace w r refl
        answered,
  )
  template_call ctx params (TemplateCall.delete req) w r carried answered = (
    req.namespace,
    carried.0,
    serve_template_call-IsMember env secret ctx (TemplateCall.delete req) req.namespace w r refl
        answered,
  )
  template_call ctx params (TemplateCall.create req) w r carried answered = (
    req.namespace,
    carried.0,
    serve_template_call-IsMember env secret ctx (TemplateCall.create req) req.namespace w r refl
        answered,
  )
  template_call ctx params (TemplateCall.update req) w r carried answered = (
    req.namespace,
    carried.0,
    serve_template_call-IsMember env secret ctx (TemplateCall.update req) req.namespace w r refl
        answered,
  )

  -- A route of the template service answers without an error only where its path has a namespace,
  -- the request carried a token of an identity that may call the route's method, and the identity's
  -- user was a member of that organization when the handler began.
  pub template_routes-ByMember :
      (i : ℕ) (route : Route K TemplateReply)
      → get_elem? (register_template_service_handler_client rt (serve_template_call env secret)) i
        ≡ some route
      → (ctx : Context) (req : HttpRequest) (params : PathParams) (w : World K) (r : TemplateReply)
      → (route.request ctx req params w).0 ≡ ok r
      → ByMember route.rpc_method ctx params w
  template_routes-ByMember =
      from_faithful (serve_template_call env secret) template_method template_targets
        (TemplateRefusal rt) ByMember template_call _
        (template_routes-IsFaithful rt (serve_template_call env secret))
