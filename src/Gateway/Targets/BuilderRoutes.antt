-- ===== src/Gateway/Targets/BuilderRoutes.antt =====
-- The routes of api/gen/buildapi/v1/buildapi.pb.gw.go against the calls of the service.
use build_api.Common.{String, inr, List, [], ◌∷◌, refl}
use build_api.Common.Lists.{All}
use build_api.Api.Zero.{zero_builder_request, zero_wake_builder_request}
use build_api.Auth.Context.{Context}
use build_api.World.Effect.{Action}
use build_api.Builders.Rpc.{BuilderCall, BuilderReply, builder_method}
use build_api.Gateway.Runtime.{Runtime, PathParams}
use build_api.Gateway.Edge.{HttpRequest}
use build_api.Api.Methods.{
  list_builders_method, get_builder_method, create_builder_method, update_builder_method,
  delete_builder_method, wake_builder_method, health_check_method,
}
use build_api.Gateway.BuilderProxy.{
  request_list_builders, request_get_builder, request_create_builder, request_update_builder,
  request_delete_builder, request_wake_builder, request_health_check, pattern_list_builders,
  pattern_get_builder, pattern_create_builder, pattern_update_builder, pattern_delete_builder,
  pattern_wake_builder, pattern_health_check, register_build_api_handler_client,
}
use build_api.Gateway.Targets.{Forwards, IsFaithful, Refuses, captured, with_param, with_body}

-- The parameters of the path, and what a call has for them.
abbrev pub builder_targets : BuilderCall → List (String × String)
builder_targets (BuilderCall.list x) = ("namespace", x) ∷ []
builder_targets (BuilderCall.get req) = ("namespace", req.namespace) ∷ ("name", req.name) ∷ []
builder_targets (BuilderCall.create req) = ("namespace", req.namespace) ∷ []
builder_targets (BuilderCall.update req) = ("namespace", req.namespace) ∷ ("name", req.name) ∷ []
builder_targets (BuilderCall.delete req) = ("namespace", req.namespace) ∷ ("name", req.name) ∷ []
builder_targets (BuilderCall.wake req) = ("namespace", req.namespace) ∷ ("name", req.name) ∷ []
builder_targets BuilderCall.health = []

-- The decoder refuses the body that a method reads.
pub data BuilderRefusal (rt : Runtime) (req : HttpRequest) : String → Type 0 where
  create_builder_body :
      Refuses rt.marshaler.builder_request req.body zero_builder_request
      → BuilderRefusal rt req create_builder_method
  update_builder_body :
      Refuses rt.marshaler.builder_request req.body zero_builder_request
      → BuilderRefusal rt req update_builder_method
  wake_builder_body :
      Refuses rt.marshaler.wake_builder_request req.body zero_wake_builder_request
      → BuilderRefusal rt req wake_builder_method

module _ {K : Type 0} (rt : Runtime) (client : Context → BuilderCall → Action K BuilderReply) where
  request_list_builders-Forwards :
      (ctx : Context) (req : HttpRequest) (params : PathParams)
      → Forwards rt client builder_method builder_targets
          (BuilderRefusal rt)
          list_builders_method
          (captured pattern_list_builders)
          req
          ctx
          params
          (request_list_builders rt client ctx req params)
  unfolding request_list_builders
  request_list_builders-Forwards ctx req params =
      with_param rt client builder_method builder_targets (BuilderRefusal rt) _
        (captured pattern_list_builders) _ ctx params "namespace" refl _
        λ namespace at_namespace.
          λ w. inr (BuilderCall.list namespace, refl, (at_namespace, tt), refl)

  request_get_builder-Forwards :
      (ctx : Context) (req : HttpRequest) (params : PathParams)
      → Forwards rt client builder_method builder_targets
          (BuilderRefusal rt)
          get_builder_method
          (captured pattern_get_builder)
          req
          ctx
          params
          (request_get_builder rt client ctx req params)
  unfolding request_get_builder
  request_get_builder-Forwards ctx req params =
      with_param rt client builder_method builder_targets (BuilderRefusal rt) _
        (captured pattern_get_builder) _ ctx params "namespace" refl _
        λ namespace at_namespace.
          with_param rt client builder_method builder_targets (BuilderRefusal rt) _
            (captured pattern_get_builder) _ ctx params "name" refl _
            λ name at_name. λ w. inr (
              BuilderCall.get (record { namespace = namespace; name = name }),
              refl,
              (at_namespace, (at_name, tt)),
              refl,
            )

  request_create_builder-Forwards :
      (ctx : Context) (req : HttpRequest) (params : PathParams)
      → Forwards rt client builder_method builder_targets
          (BuilderRefusal rt)
          create_builder_method
          (captured pattern_create_builder)
          req
          ctx
          params
          (request_create_builder rt client ctx req params)
  unfolding request_create_builder
  request_create_builder-Forwards ctx req params =
      with_body rt client builder_method builder_targets (BuilderRefusal rt) _
        (captured pattern_create_builder) _ ctx params rt.marshaler.builder_request req.body
        zero_builder_request BuilderRefusal.create_builder_body _
        λ m.
          with_param rt client builder_method builder_targets (BuilderRefusal rt) _
            (captured pattern_create_builder) _ ctx params "namespace" refl _
            λ namespace at_namespace. λ w. inr (
              BuilderCall.create (record m { namespace = namespace }),
              refl,
              (at_namespace, tt),
              refl,
            )

  request_update_builder-Forwards :
      (ctx : Context) (req : HttpRequest) (params : PathParams)
      → Forwards rt client builder_method builder_targets
          (BuilderRefusal rt)
          update_builder_method
          (captured pattern_update_builder)
          req
          ctx
          params
          (request_update_builder rt client ctx req params)
  unfolding request_update_builder
  request_update_builder-Forwards ctx req params =
      with_body rt client builder_method builder_targets (BuilderRefusal rt) _
        (captured pattern_update_builder) _ ctx params rt.marshaler.builder_request req.body
        zero_builder_request BuilderRefusal.update_builder_body _
        λ m.
          with_param rt client builder_method builder_targets (BuilderRefusal rt) _
            (captured pattern_update_builder) _ ctx params "namespace" refl _
            λ namespace at_namespace.
              with_param rt client builder_method builder_targets (BuilderRefusal rt) _
                (captured pattern_update_builder) _ ctx params "name" refl _
                λ name at_name. λ w. inr (
                  BuilderCall.update (record m { namespace = namespace; name = name }),
                  refl,
                  (at_namespace, (at_name, tt)),
                  refl,
                )

  request_delete_builder-Forwards :
      (ctx : Context) (req : HttpRequest) (params : PathParams)
      → Forwards rt client builder_method builder_targets
          (BuilderRefusal rt)
          delete_builder_method
          (captured pattern_delete_builder)
          req
          ctx
          params
          (request_delete_builder rt client ctx req params)
  unfolding request_delete_builder
  request_delete_builder-Forwards ctx req params =
      with_param rt client builder_method builder_targets (BuilderRefusal rt) _
        (captured pattern_delete_builder) _ ctx params "namespace" refl _
        λ namespace at_namespace.
          with_param rt client builder_method builder_targets (BuilderRefusal rt) _
            (captured pattern_delete_builder) _ ctx params "name" refl _
            λ name at_name. λ w. inr (
              BuilderCall.delete (record { namespace = namespace; name = name }),
              refl,
              (at_namespace, (at_name, tt)),
              refl,
            )

  request_wake_builder-Forwards :
      (ctx : Context) (req : HttpRequest) (params : PathParams)
      → Forwards rt client builder_method builder_targets
          (BuilderRefusal rt)
          wake_builder_method
          (captured pattern_wake_builder)
          req
          ctx
          params
          (request_wake_builder rt client ctx req params)
  unfolding request_wake_builder
  request_wake_builder-Forwards ctx req params =
      with_body rt client builder_method builder_targets (BuilderRefusal rt) _
        (captured pattern_wake_builder) _ ctx params rt.marshaler.wake_builder_request req.body
        zero_wake_builder_request BuilderRefusal.wake_builder_body _
        λ m.
          with_param rt client builder_method builder_targets (BuilderRefusal rt) _
            (captured pattern_wake_builder) _ ctx params "namespace" refl _
            λ namespace at_namespace.
              with_param rt client builder_method builder_targets (BuilderRefusal rt) _
                (captured pattern_wake_builder) _ ctx params "name" refl _
                λ name at_name. λ w. inr (
                  BuilderCall.wake (record m { namespace = namespace; name = name }),
                  refl,
                  (at_namespace, (at_name, tt)),
                  refl,
                )

  request_health_check-Forwards :
      (ctx : Context) (req : HttpRequest) (params : PathParams)
      → Forwards rt client builder_method builder_targets
          (BuilderRefusal rt)
          health_check_method
          (captured pattern_health_check)
          req
          ctx
          params
          (request_health_check rt client ctx req params)
  unfolding request_health_check
  request_health_check-Forwards ctx req params = λ w. inr (BuilderCall.health, refl, tt, refl)

  -- The route of each method of `BuildAPI` ends in one call of that method, with the targets of the call taken from
  -- the path, or in an error that a parameter or the body explains.
  pub builder_routes-IsFaithful :
      All
        (IsFaithful rt client builder_method builder_targets (BuilderRefusal rt))
        (register_build_api_handler_client rt client)
  unfolding register_build_api_handler_client
  builder_routes-IsFaithful = (
    request_list_builders-Forwards,
    (
      request_get_builder-Forwards,
      (
        request_create_builder-Forwards,
        (
          request_update_builder-Forwards,
          (
            request_delete_builder-Forwards,
            (request_wake_builder-Forwards, (request_health_check-Forwards, tt)),
          ),
        ),
      ),
    ),
  )
