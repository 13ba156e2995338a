-- ===== src/Gateway/Targets/TemplateRoutes.antt =====
-- The routes of api/gen/buildapi/v1/templates.pb.gw.go against the calls of the service.
use build_api.Common.{String, inr, List, [], ◌∷◌, refl}
use build_api.Common.Lists.{All}
use build_api.Api.Zero.{zero_template_request}
use build_api.Auth.Context.{Context}
use build_api.World.Effect.{Action}
use build_api.Templates.Rpc.{TemplateCall, TemplateReply, template_method}
use build_api.Gateway.Runtime.{Runtime, PathParams}
use build_api.Gateway.Edge.{HttpRequest}
use build_api.Api.Methods.{
  list_templates_method, get_template_method, create_template_method, update_template_method,
  delete_template_method,
}
use build_api.Gateway.TemplateProxy.{
  request_list_templates, request_get_template, request_create_template, request_update_template,
  request_delete_template, pattern_list_templates, pattern_get_template, pattern_create_template,
  pattern_update_template, pattern_delete_template, register_template_service_handler_client,
}
use build_api.Gateway.Targets.{Forwards, IsFaithful, Refuses, captured, with_param, with_body}

-- The parameters of the path, and what a call has for them.
abbrev pub template_targets : TemplateCall → List (String × String)
template_targets (TemplateCall.list x) = ("namespace", x) ∷ []
template_targets (TemplateCall.get req) = ("namespace", req.namespace) ∷ ("name", req.name) ∷ []
template_targets (TemplateCall.create req) = ("namespace", req.namespace) ∷ []
template_targets (TemplateCall.update req) = ("namespace", req.namespace) ∷ ("name", req.name) ∷ []
template_targets (TemplateCall.delete req) = ("namespace", req.namespace) ∷ ("name", req.name) ∷ []

-- The decoder refuses the body that a method reads.
pub data TemplateRefusal (rt : Runtime) (req : HttpRequest) : String → Type 0 where
  create_template_body :
      Refuses rt.marshaler.template_request req.body zero_template_request
      → TemplateRefusal rt req create_template_method
  update_template_body :
      Refuses rt.marshaler.template_request req.body zero_template_request
      → TemplateRefusal rt req update_template_method

module _ {K : Type 0} (rt : Runtime)
    (client : Context → TemplateCall → Action K TemplateReply) where
  request_list_templates-Forwards :
      (ctx : Context) (req : HttpRequest) (params : PathParams)
      → Forwards rt client template_method template_targets
          (TemplateRefusal rt)
          list_templates_method
          (captured pattern_list_templates)
          req
          ctx
          params
          (request_list_templates rt client ctx req params)
  unfolding request_list_templates
  request_list_templates-Forwards ctx req params =
      with_param rt client template_method template_targets (TemplateRefusal rt) _
        (captured pattern_list_templates) _ ctx params "namespace" refl _
        λ namespace at_namespace.
          λ w. inr (TemplateCall.list namespace, refl, (at_namespace, tt), refl)

  request_get_template-Forwards :
      (ctx : Context) (req : HttpRequest) (params : PathParams)
      → Forwards rt client template_method template_targets
          (TemplateRefusal rt)
          get_template_method
          (captured pattern_get_template)
          req
          ctx
          params
          (request_get_template rt client ctx req params)
  unfolding request_get_template
  request_get_template-Forwards ctx req params =
      with_param rt client template_method template_targets (TemplateRefusal rt) _
        (captured pattern_get_template) _ ctx params "namespace" refl _
        λ namespace at_namespace.
          with_param rt client template_method template_targets (TemplateRefusal rt) _
            (captured pattern_get_template) _ ctx params "name" refl _
            λ name at_name. λ w. inr (
              TemplateCall.get (record { namespace = namespace; name = name }),
              refl,
              (at_namespace, (at_name, tt)),
              refl,
            )

  request_create_template-Forwards :
      (ctx : Context) (req : HttpRequest) (params : PathParams)
      → Forwards rt client template_method template_targets
          (TemplateRefusal rt)
          create_template_method
          (captured pattern_create_template)
          req
          ctx
          params
          (request_create_template rt client ctx req params)
  unfolding request_create_template
  request_create_template-Forwards ctx req params =
      with_body rt client template_method template_targets (TemplateRefusal rt) _
        (captured pattern_create_template) _ ctx params rt.marshaler.template_request req.body
        zero_template_request TemplateRefusal.create_template_body _
        λ m.
          with_param rt client template_method template_targets (TemplateRefusal rt) _
            (captured pattern_create_template) _ ctx params "namespace" refl _
            λ namespace at_namespace. λ w. inr (
              TemplateCall.create (record m { namespace = namespace }),
              refl,
              (at_namespace, tt),
              refl,
            )

  request_update_template-Forwards :
      (ctx : Context) (req : HttpRequest) (params : PathParams)
      → Forwards rt client template_method template_targets
          (TemplateRefusal rt)
          update_template_method
          (captured pattern_update_template)
          req
          ctx
          params
          (request_update_template rt client ctx req params)
  unfolding request_update_template
  request_update_template-Forwards ctx req params =
      with_body rt client template_method template_targets (TemplateRefusal rt) _
        (captured pattern_update_template) _ ctx params rt.marshaler.template_request req.body
        zero_template_request TemplateRefusal.update_template_body _
        λ m.
          with_param rt client template_method template_targets (TemplateRefusal rt) _
            (captured pattern_update_template) _ ctx params "namespace" refl _
            λ namespace at_namespace.
              with_param rt client template_method template_targets (TemplateRefusal rt) _
                (captured pattern_update_template) _ ctx params "name" refl _
                λ name at_name. λ w. inr (
                  TemplateCall.update (record m { namespace = namespace; name = name }),
                  refl,
                  (at_namespace, (at_name, tt)),
                  refl,
                )

  request_delete_template-Forwards :
      (ctx : Context) (req : HttpRequest) (params : PathParams)
      → Forwards rt client template_method template_targets
          (TemplateRefusal rt)
          delete_template_method
          (captured pattern_delete_template)
          req
          ctx
          params
          (request_delete_template rt client ctx req params)
  unfolding request_delete_template
  request_delete_template-Forwards ctx req params =
      with_param rt client template_method template_targets (TemplateRefusal rt) _
        (captured pattern_delete_template) _ ctx params "namespace" refl _
        λ namespace at_namespace.
          with_param rt client template_method template_targets (TemplateRefusal rt) _
            (captured pattern_delete_template) _ ctx params "name" refl _
            λ name at_name. λ w. inr (
              TemplateCall.delete (record { namespace = namespace; name = name }),
              refl,
              (at_namespace, (at_name, tt)),
              refl,
            )

  -- The route of each method of `TemplateService` ends in one call of that method, with the targets of the call taken from
  -- the path, or in an error that a parameter or the body explains.
  pub template_routes-IsFaithful :
      All
        (IsFaithful rt client template_method template_targets (TemplateRefusal rt))
        (register_template_service_handler_client rt client)
  unfolding register_template_service_handler_client
  template_routes-IsFaithful = (
    request_list_templates-Forwards,
    (
      request_get_template-Forwards,
      (
        request_create_template-Forwards,
        (request_update_template-Forwards, (request_delete_template-Forwards, tt)),
      ),
    ),
  )
