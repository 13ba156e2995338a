-- ===== src/Gateway/Targets/Services.antt =====
-- The routes of the four services at once.
use build_api.Common.Lists.{All}
use build_api.Auth.Context.{Context}
use build_api.World.Effect.{Action}
use build_api.Auth.Rpc.{AuthCall, AuthReply, auth_method}
use build_api.Builders.Rpc.{BuilderCall, BuilderReply, builder_method}
use build_api.Organizations.Rpc.{OrganizationCall, OrganizationReply, organization_method}
use build_api.Templates.Rpc.{TemplateCall, TemplateReply, template_method}
use build_api.Gateway.Runtime.{Runtime}
use build_api.Gateway.AuthProxy.{register_auth_service_handler_client}
use build_api.Gateway.BuilderProxy.{register_build_api_handler_client}
use build_api.Gateway.OrganizationProxy.{register_organization_service_handler_client}
use build_api.Gateway.TemplateProxy.{register_template_service_handler_client}
use build_api.Gateway.Targets.{IsFaithful}
use build_api.Gateway.Targets.AuthRoutes.{auth_targets, AuthRefusal, auth_routes-IsFaithful}
use build_api.Gateway.Targets.BuilderRoutes.{
  builder_targets, BuilderRefusal, builder_routes-IsFaithful,
}
use build_api.Gateway.Targets.OrganizationRoutes.{
  organization_targets, OrganizationRefusal, organization_routes-IsFaithful,
}
use build_api.Gateway.Targets.TemplateRoutes.{
  template_targets, TemplateRefusal, template_routes-IsFaithful,
}

module _ {K : Type 0} (rt : Runtime) (auth : Context → AuthCall → Action K AuthReply)
    (builders : Context → BuilderCall → Action K BuilderReply)
    (organizations : Context → OrganizationCall → Action K OrganizationReply)
    (templates : Context → TemplateCall → Action K TemplateReply) where
  -- Whatever the four services do, each route of the gateway ends in one call of the method that the
  -- route is annotated with. The targets of that call (the namespace and the name of a builder or a
  -- template, the identifier of an organization or a key) are the values of the path's parameters,
  -- whatever the body says. Otherwise the route ends in an error that leaves the state alone, and a
  -- parameter of its pattern is missing or does not convert, or the decoder refuses its body.
  pub routes-IsFaithful :
      All
        (IsFaithful rt auth auth_method auth_targets (AuthRefusal rt))
        (register_auth_service_handler_client rt auth)
      × All
          (IsFaithful rt builders builder_method builder_targets (BuilderRefusal rt))
          (register_build_api_handler_client rt builders)
      × All
          (IsFaithful rt organizations organization_method organization_targets
            (OrganizationRefusal rt))
          (register_organization_service_handler_client rt organizations)
      × All
          (IsFaithful rt templates template_method template_targets (TemplateRefusal rt))
          (register_template_service_handler_client rt templates)
  routes-IsFaithful = (
    auth_routes-IsFaithful rt auth,
    builder_routes-IsFaithful rt builders,
    organization_routes-IsFaithful rt organizations,
    template_routes-IsFaithful rt templates,
  )
