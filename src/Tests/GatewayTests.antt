-- ===== src/Tests/GatewayTests.antt =====
-- The gateway in front of the server: instances in the small environment.
use build_api.Common.{false, ◌≤◌, ◌≡◌, ◌⊎◌, refl, some, [], ◌∷◌, ok}
use build_api.Common.Lists.{All, where_rows, length}
use build_api.Text.{split, trim_space, trim_left, trim_right, is_space, cut_prefix, has_prefix}
use build_api.World.Sql.{select_is_member}
use build_api.Membership.{ensure_org_member}
use build_api.Auth.Jwt.{validate_access_token, parse_token}
use build_api.Auth.Scopes.{has_scope, lookup, enforce_access}
use build_api.Auth.Middleware.{
  looks_like_jwt, bearer, first_bearer, extract_bearer_token, authenticate,
  unary_server_interceptor,
}
use build_api.Auth.Rpc.{auth_method, serve_auth_call}
use build_api.Builders.Convert.{cr_to_proto}
use build_api.Builders.Service.{get_builder}
use build_api.Builders.Rpc.{BuilderReply, run_builder_call, serve_builder_call, builder_method}
use build_api.Organizations.Rpc.{serve_organization_call, organization_method}
use build_api.Templates.Convert.{
  template_cr_to_proto, template_spec_to_proto, resource_requirements_to_proto,
}
use build_api.Templates.Service.{get_template}
use build_api.Templates.Rpc.{TemplateReply, run_template_call, serve_template_call, template_method}
use build_api.Api.Methods.{health_check_method, get_builder_method, get_template_method}
use build_api.Gateway.Edge.{HttpRequest}
use build_api.Gateway.Runtime.{Runtime, Marshaler, Decoder, DecodeError, PathParams}
use build_api.Gateway.AuthProxy.{register_auth_service_handler_client}
use build_api.Gateway.BuilderProxy.{register_build_api_handler_client, request_get_builder}
use build_api.Gateway.OrganizationProxy.{register_organization_service_handler_client}
use build_api.Gateway.TemplateProxy.{register_template_service_handler_client, request_get_template}
use build_api.Gateway.Targets.{IsFaithful}
use build_api.Gateway.Targets.AuthRoutes.{auth_targets, AuthRefusal}
use build_api.Gateway.Targets.BuilderRoutes.{builder_targets, BuilderRefusal}
use build_api.Gateway.Targets.Services.{routes-IsFaithful}
use build_api.Gateway.Targets.TemplateRoutes.{template_targets, TemplateRefusal}
use build_api.Gateway.Targets.OrganizationRoutes.{organization_targets, OrganizationRefusal}
use build_api.Gateway.Targets.Members.{ByMember, builder_routes-ByMember, template_routes-ByMember}
use build_api.Gateway.Targets.Apart.{takes, all_faces, routes-apart}
use build_api.Tests.Demo.{env, world, session, builder, template}

-- A decoder that finds no body.
abbrev nothing_sent : {M : Type 0} → Decoder M
nothing_sent body m = (m, some DecodeError.end_of_file)

abbrev marshaler : Marshaler
marshaler = record {
  register_request = nothing_sent;
  login_request = nothing_sent;
  update_profile_request = nothing_sent;
  refresh_token_request = nothing_sent;
  create_user_api_key_request = nothing_sent;
  builder_request = nothing_sent;
  wake_builder_request = nothing_sent;
  create_organization_request = nothing_sent;
  update_organization_request = nothing_sent;
  template_request = nothing_sent;
}

abbrev pub runtime : Runtime
runtime = record {
  marshaler = marshaler;
  string = λ text. ok text;
  default_header_matcher = λ name. (name, false);
  annotate_context = λ options req rpc_method path. ok session;
  annotate_incoming_context = λ options req rpc_method path. ok session;
  http_error = λ req s w. record w { status = some 500 };
  forward_response_message = λ option req message w. option message w;
}

abbrev pub sent : HttpRequest
sent = record {
  method = "GET";
  path = "/v1/namespaces/org/builders/b";
  headers = [];
  cookies = [];
  body = "";
}

abbrev pub params : PathParams
params = ("namespace", "org") ∷ ("name", "b") ∷ []

gateway : Unit {0}
unfolding serve_builder_call run_builder_call get_builder serve_template_call run_template_call
    get_template ensure_org_member select_is_member cr_to_proto template_cr_to_proto
    template_spec_to_proto resource_requirements_to_proto unary_server_interceptor authenticate
    validate_access_token parse_token extract_bearer_token first_bearer bearer looks_like_jwt
    has_scope lookup enforce_access split trim_space trim_left trim_right is_space cut_prefix
    has_prefix register_build_api_handler_client request_get_builder
    register_template_service_handler_client request_get_template
gateway = tt

builder_routes-ByMember_example :
    (get_builder_method ≡ health_check_method)
    ⊎ ByMember env "s" runtime get_builder_method session params world
unfolding gateway
builder_routes-ByMember_example =
    builder_routes-ByMember env "s" runtime 1 _ refl session sent params world
      (BuilderReply.builder (cr_to_proto builder)) refl

template_routes-ByMember_example : ByMember env "s" runtime get_template_method session params world
unfolding gateway
template_routes-ByMember_example =
    template_routes-ByMember env "s" runtime 1 _ refl session sent params world
      (TemplateReply.template (template_cr_to_proto env template)) refl

routes-IsFaithful_example :
    All
      (IsFaithful runtime (serve_auth_call env "s") auth_method auth_targets (AuthRefusal runtime))
      (register_auth_service_handler_client runtime (serve_auth_call env "s"))
    × All
        (IsFaithful runtime
          (serve_builder_call env "s")
          builder_method
          builder_targets
          (BuilderRefusal runtime))
        (register_build_api_handler_client runtime (serve_builder_call env "s"))
    × All
        (IsFaithful runtime
          (serve_organization_call env "s")
          organization_method
          organization_targets
          (OrganizationRefusal runtime))
        (register_organization_service_handler_client runtime (serve_organization_call env "s"))
    × All
        (IsFaithful runtime
          (serve_template_call env "s")
          template_method
          template_targets
          (TemplateRefusal runtime))
        (register_template_service_handler_client runtime (serve_template_call env "s"))
routes-IsFaithful_example =
    routes-IsFaithful runtime (serve_auth_call env "s") (serve_builder_call env "s")
      (serve_organization_call env "s") (serve_template_call env "s")

routes-apart_example :
    length (
      where_rows (takes "POST" ("v1" ∷ "auth" ∷ "login" ∷ [])) (
        all_faces runtime
          (serve_auth_call env "s")
          (serve_builder_call env "s")
          (serve_organization_call env "s")
          (serve_template_call env "s")))
    ≤ 1
routes-apart_example =
    routes-apart runtime (serve_auth_call env "s") (serve_builder_call env "s")
      (serve_organization_call env "s") (serve_template_call env "s") "POST"
      ("v1" ∷ "auth" ∷ "login" ∷ [])
