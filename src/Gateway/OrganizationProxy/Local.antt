-- ===== src/Gateway/OrganizationProxy/Local.antt =====
-- The in-process half of api/gen/buildapi/v1/organizations.pb.gw.go: the same calls on a server of the same process.
use build_api.Common.{List, [], ◌∷◌}
use build_api.Api.Zero.{zero_create_organization_request, zero_update_organization_request}
use build_api.World.Effect.{Action, ◌>>=◌}
use build_api.Auth.Context.{Context}
use build_api.Organizations.Rpc.{OrganizationCall, OrganizationReply}
use build_api.Gateway.Edge.{HttpRequest}
use build_api.Gateway.Runtime.{Runtime, PathParams, Route, decode_body, path_param}
use build_api.Gateway.OrganizationProxy.{
  pattern_list_organizations, pattern_get_organization, pattern_create_organization,
  pattern_update_organization, pattern_delete_organization, pattern_list_organization_members,
}

module _ {K : Type 0} (rt : Runtime)
    (server : Context → OrganizationCall → Action K OrganizationReply) where
  unfoldable pub local_request_list_organizations :
      Context → HttpRequest → PathParams → Action K OrganizationReply
  local_request_list_organizations ctx req params = server ctx OrganizationCall.list

  unfoldable pub local_request_get_organization :
      Context → HttpRequest → PathParams → Action K OrganizationReply
  local_request_get_organization ctx req params = do
    id ← path_param rt params "id"
    server ctx (OrganizationCall.get id)

  unfoldable pub local_request_create_organization :
      Context → HttpRequest → PathParams → Action K OrganizationReply
  local_request_create_organization ctx req params = do
    m ←
        decode_body rt.marshaler.create_organization_request req.body
          zero_create_organization_request
    server ctx (OrganizationCall.create m)

  unfoldable pub local_request_update_organization :
      Context → HttpRequest → PathParams → Action K OrganizationReply
  local_request_update_organization ctx req params = do
    m ←
        decode_body rt.marshaler.update_organization_request req.body
          zero_update_organization_request
    id ← path_param rt params "id"
    server ctx (OrganizationCall.update (record m { id = id }))

  unfoldable pub local_request_delete_organization :
      Context → HttpRequest → PathParams → Action K OrganizationReply
  local_request_delete_organization ctx req params = do
    id ← path_param rt params "id"
    server ctx (OrganizationCall.delete id)

  unfoldable pub local_request_list_organization_members :
      Context → HttpRequest → PathParams → Action K OrganizationReply
  local_request_list_organization_members ctx req params = do
    organization_id ← path_param rt params "organization_id"
    server ctx (OrganizationCall.members organization_id)

  -- `RegisterOrganizationServiceHandlerServer`, as the list of what it gives to `mux.Handle`.
  unfoldable pub register_organization_service_handler_server : List (Route K OrganizationReply)
  register_organization_service_handler_server =
      record {
        http_method = "GET";
        pattern = pattern_list_organizations;
        rpc_method = "/buildapi.v1.OrganizationService/ListOrganizations";
        path_template = "/v1/organizations";
        request = local_request_list_organizations;
      }
      ∷ record {
        http_method = "GET";
        pattern = pattern_get_organization;
        rpc_method = "/buildapi.v1.OrganizationService/GetOrganization";
        path_template = "/v1/organizations/{id}";
        request = local_request_get_organization;
      }
      ∷ record {
        http_method = "POST";
        pattern = pattern_create_organization;
        rpc_method = "/buildapi.v1.OrganizationService/CreateOrganization";
        path_template = "/v1/organizations";
        request = local_request_create_organization;
      }
      ∷ record {
        http_method = "PATCH";
        pattern = pattern_update_organization;
        rpc_method = "/buildapi.v1.OrganizationService/UpdateOrganization";
        path_template = "/v1/organizations/{id}";
        request = local_request_update_organization;
      }
      ∷ record {
        http_method = "DELETE";
        pattern = pattern_delete_organization;
        rpc_method = "/buildapi.v1.OrganizationService/DeleteOrganization";
        path_template = "/v1/organizations/{id}";
        request = local_request_delete_organization;
      }
      ∷ record {
        http_method = "GET";
        pattern = pattern_list_organization_members;
        rpc_method = "/buildapi.v1.OrganizationService/ListOrganizationMembers";
        path_template = "/v1/organizations/{organization_id}/members";
        request = local_request_list_organization_members;
      }
      ∷ []
