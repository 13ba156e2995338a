-- ===== src/Gateway/Targets/Table.antt =====
-- The routes of the four services side by side.
use Prim.Native.String
use build_api.Common.{String, ℕ, ◌≡◌, refl, List, [], ◌∷◌, ◌++◌, map, ◌=?◌, if◌then◌else◌}
use build_api.Auth.Context.{Context}
use build_api.World.Effect.{Action}
use build_api.Api.Methods.{registered_methods}
use build_api.Auth.Rpc.{AuthCall, AuthReply}
use build_api.Builders.Rpc.{BuilderCall, BuilderReply}
use build_api.Organizations.Rpc.{OrganizationCall, OrganizationReply}
use build_api.Templates.Rpc.{TemplateCall, TemplateReply}
use build_api.Gateway.Targets.{at}
use build_api.Gateway.Runtime.{Runtime, Route}
use build_api.Gateway.AuthProxy.{
  register_auth_service_handler_client, request_register, request_login, request_get_me,
  request_update_profile, request_refresh_token, request_create_user_api_key,
  request_list_user_api_keys, request_revoke_user_api_key,
}
use build_api.Gateway.AuthProxy.Local.{
  register_auth_service_handler_server, local_request_register, local_request_login,
  local_request_get_me, local_request_update_profile, local_request_refresh_token,
  local_request_create_user_api_key, local_request_list_user_api_keys,
  local_request_revoke_user_api_key,
}
use build_api.Gateway.BuilderProxy.{
  register_build_api_handler_client, request_list_builders, request_get_builder,
  request_create_builder, request_update_builder, request_delete_builder, request_wake_builder,
  request_health_check,
}
use build_api.Gateway.BuilderProxy.Local.{
  register_build_api_handler_server, local_request_list_builders, local_request_get_builder,
  local_request_create_builder, local_request_update_builder, local_request_delete_builder,
  local_request_wake_builder, local_request_health_check,
}
use build_api.Gateway.OrganizationProxy.{
  register_organization_service_handler_client, request_list_organizations,
  request_get_organization, request_create_organization, request_update_organization,
  request_delete_organization, request_list_organization_members,
}
use build_api.Gateway.OrganizationProxy.Local.{
  register_organization_service_handler_server, local_request_list_organizations,
  local_request_get_organization, local_request_create_organization,
  local_request_update_organization, local_request_delete_organization,
  local_request_list_organization_members,
}
use build_api.Gateway.TemplateProxy.{
  register_template_service_handler_client, request_list_templates, request_get_template,
  request_create_template, request_update_template, request_delete_template,
}
use build_api.Gateway.TemplateProxy.Local.{
  register_template_service_handler_server, local_request_list_templates,
  local_request_get_template, local_request_create_template, local_request_update_template,
  local_request_delete_template,
}

-- The path template that a pattern stands for.
abbrev pub rendered : List ℕ → List String → String
rendered [] pool = ""
rendered (op ∷ []) pool = ""
rendered (op ∷ i ∷ ops) pool =
    if op =? 2
    then String.◌++◌ "/" (String.◌++◌ (at pool i) (rendered ops pool))
    else if op =? 5
    then String.◌++◌ "/{" (String.◌++◌ (at pool i) (String.◌++◌ "}" (rendered ops pool)))
    else rendered ops pool

abbrev pub rpc_methods : {K Reply : Type 0} → List (Route K Reply) → List String
rpc_methods = map (λ route. route.rpc_method)

abbrev pub renderings : {K Reply : Type 0} → List (Route K Reply) → List String
renderings = map (λ route. rendered route.pattern.ops route.pattern.pool)

abbrev pub path_templates : {K Reply : Type 0} → List (Route K Reply) → List String
path_templates = map (λ route. route.path_template)

module _ {K : Type 0} (rt : Runtime) (auth : Context → AuthCall → Action K AuthReply)
    (builders : Context → BuilderCall → Action K BuilderReply)
    (organizations : Context → OrganizationCall → Action K OrganizationReply)
    (templates : Context → TemplateCall → Action K TemplateReply) where
  -- The gateway has exactly one route for each method of the four services, in the order of the
  -- services and of their methods, and the pattern of each route stands for the path template that
  -- the route is annotated with, names of parameters included.
  pub routes-registered_methods :
      (rpc_methods (register_auth_service_handler_client rt auth)
          ++ rpc_methods (register_build_api_handler_client rt builders)
          ++ rpc_methods (register_organization_service_handler_client rt organizations)
          ++ rpc_methods (register_template_service_handler_client rt templates)
        ≡ registered_methods)
      × (renderings (register_auth_service_handler_client rt auth)
          ≡ path_templates (register_auth_service_handler_client rt auth))
      × (renderings (register_build_api_handler_client rt builders)
          ≡ path_templates (register_build_api_handler_client rt builders))
      × (renderings (register_organization_service_handler_client rt organizations)
          ≡ path_templates (register_organization_service_handler_client rt organizations))
      × (renderings (register_template_service_handler_client rt templates)
          ≡ path_templates (register_template_service_handler_client rt templates))
  unfolding register_auth_service_handler_client register_build_api_handler_client
      register_organization_service_handler_client register_template_service_handler_client
  routes-registered_methods = (refl, refl, refl, refl, refl)

  -- The handlers for a server in the same process have the same methods, patterns and calls as
  -- those that proxy to it.
  local_routes-routes :
      (register_auth_service_handler_server rt auth ≡ register_auth_service_handler_client rt auth)
      × (register_build_api_handler_server rt builders
          ≡ register_build_api_handler_client rt builders)
      × (register_organization_service_handler_server rt organizations
          ≡ register_organization_service_handler_client rt organizations)
      × (register_template_service_handler_server rt templates
          ≡ register_template_service_handler_client rt templates)
  unfolding register_auth_service_handler_client register_auth_service_handler_server
      register_build_api_handler_client register_build_api_handler_server
      register_organization_service_handler_client register_organization_service_handler_server
      register_template_service_handler_client register_template_service_handler_server
      request_register request_login request_get_me request_update_profile request_refresh_token
      request_create_user_api_key request_list_user_api_keys request_revoke_user_api_key
      local_request_register local_request_login local_request_get_me local_request_update_profile
      local_request_refresh_token local_request_create_user_api_key local_request_list_user_api_keys
      local_request_revoke_user_api_key request_list_builders request_get_builder
      request_create_builder request_update_builder request_delete_builder request_wake_builder
      request_health_check local_request_list_builders local_request_get_builder
      local_request_create_builder local_request_update_builder local_request_delete_builder
      local_request_wake_builder local_request_health_check request_list_organizations
      request_get_organization request_create_organization request_update_organization
      request_delete_organization request_list_organization_members local_request_list_organizations
      local_request_get_organization local_request_create_organization
      local_request_update_organization local_request_delete_organization
      local_request_list_organization_members request_list_templates request_get_template
      request_create_template request_update_template request_delete_template
      local_request_list_templates local_request_get_template local_request_create_template
      local_request_update_template local_request_delete_template
  local_routes-routes = (refl, refl, refl, refl)
