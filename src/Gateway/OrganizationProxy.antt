-- ===== src/Gateway/OrganizationProxy.antt =====
-- The functions of api/gen/buildapi/v1/organizations.pb.gw.go. Reading a body to its end is left out.
pub mod Local
use build_api.Common.{String, ℕ, List, [], ◌∷◌}
use build_api.Api.Zero.{zero_create_organization_request, zero_update_organization_request}
use build_api.World.Effect.{World, Action, ◌>>=◌}
use build_api.Auth.Context.{Context}
use build_api.Organizations.Rpc.{OrganizationCall, OrganizationReply}
use build_api.Gateway.Edge.{HttpRequest}
use build_api.Gateway.Runtime.{Runtime, PathParams, Pattern, Route, decode_body, path_param}

abbrev pub pattern_list_organizations : Pattern
pattern_list_organizations = record {
  version = 1;
  ops = 2 ∷ 0 ∷ 2 ∷ 1 ∷ [];
  pool = "v1" ∷ "organizations" ∷ [];
  verb = "";
}

abbrev pub pattern_get_organization : Pattern
pattern_get_organization = record {
  version = 1;
  ops = 2 ∷ 0 ∷ 2 ∷ 1 ∷ 1 ∷ 0 ∷ 4 ∷ 1 ∷ 5 ∷ 2 ∷ [];
  pool = "v1" ∷ "organizations" ∷ "id" ∷ [];
  verb = "";
}

abbrev pub pattern_create_organization : Pattern
pattern_create_organization = record {
  version = 1;
  ops = 2 ∷ 0 ∷ 2 ∷ 1 ∷ [];
  pool = "v1" ∷ "organizations" ∷ [];
  verb = "";
}

abbrev pub pattern_update_organization : Pattern
pattern_update_organization = record {
  version = 1;
  ops = 2 ∷ 0 ∷ 2 ∷ 1 ∷ 1 ∷ 0 ∷ 4 ∷ 1 ∷ 5 ∷ 2 ∷ [];
  pool = "v1" ∷ "organizations" ∷ "id" ∷ [];
  verb = "";
}

abbrev pub pattern_delete_organization : Pattern
pattern_delete_organization = record {
  version = 1;
  ops = 2 ∷ 0 ∷ 2 ∷ 1 ∷ 1 ∷ 0 ∷ 4 ∷ 1 ∷ 5 ∷ 2 ∷ [];
  pool = "v1" ∷ "organizations" ∷ "id" ∷ [];
  verb = "";
}

abbrev pub pattern_list_organization_members : Pattern
pattern_list_organization_members = record {
  version = 1;
  ops = 2 ∷ 0 ∷ 2 ∷ 1 ∷ 1 ∷ 0 ∷ 4 ∷ 1 ∷ 5 ∷ 2 ∷ 2 ∷ 3 ∷ [];
  pool = "v1" ∷ "organizations" ∷ "organization_id" ∷ "members" ∷ [];
  verb = "";
}

module _ {K : Type 0} (rt : Runtime)
    (client : Context → OrganizationCall → Action K OrganizationReply) where
  unfoldable pub request_list_organizations :
      Context → HttpRequest → PathParams → Action K OrganizationReply
  request_list_organizations ctx req params = client ctx OrganizationCall.list

  unfoldable pub request_get_organization :
      Context → HttpRequest → PathParams → Action K OrganizationReply
  request_get_organization ctx req params = do
    id ← path_param rt params "id"
    client ctx (OrganizationCall.get id)

  unfoldable pub request_create_organization :
      Context → HttpRequest → PathParams → Action K OrganizationReply
  request_create_organization ctx req params = do
    m ←
        decode_body rt.marshaler.create_organization_request req.body
          zero_create_organization_request
    client ctx (OrganizationCall.create m)

  unfoldable pub request_update_organization :
      Context → HttpRequest → PathParams → Action K OrganizationReply
  request_update_organization ctx req params = do
    m ←
        decode_body rt.marshaler.update_organization_request req.body
          zero_update_organization_request
    id ← path_param rt params "id"
    client ctx (OrganizationCall.update (record m { id = id }))

  unfoldable pub request_delete_organization :
      Context → HttpRequest → PathParams → Action K OrganizationReply
  request_delete_organization ctx req params = do
    id ← path_param rt params "id"
    client ctx (OrganizationCall.delete id)

  unfoldable pub request_list_organization_members :
      Context → HttpRequest → PathParams → Action K OrganizationReply
  request_list_organization_members ctx req params = do
    organization_id ← path_param rt params "organization_id"
    client ctx (OrganizationCall.members organization_id)

  -- `RegisterOrganizationServiceHandlerClient`, as the list of what it gives to `mux.Handle`.
  unfoldable pub register_organization_service_handler_client : List (Route K OrganizationReply)
  register_organization_service_handler_client =
      record {
        http_method = "GET";
        pattern = pattern_list_organizations;
        rpc_method = "/buildapi.v1.OrganizationService/ListOrganizations";
        path_template = "/v1/organizations";
        request = request_list_organizations;
      }
      ∷ record {
        http_method = "GET";
        pattern = pattern_get_organization;
        rpc_method = "/buildapi.v1.OrganizationService/GetOrganization";
        path_template = "/v1/organizations/{id}";
        request = request_get_organization;
      }
      ∷ record {
        http_method = "POST";
        pattern = pattern_create_organization;
        rpc_method = "/buildapi.v1.OrganizationService/CreateOrganization";
        path_template = "/v1/organizations";
        request = request_create_organization;
      }
      ∷ record {
        http_method = "PATCH";
        pattern = pattern_update_organization;
        rpc_method = "/buildapi.v1.OrganizationService/UpdateOrganization";
        path_template = "/v1/organizations/{id}";
        request = request_update_organization;
      }
      ∷ record {
        http_method = "DELETE";
        pattern = pattern_delete_organization;
        rpc_method = "/buildapi.v1.OrganizationService/DeleteOrganization";
        path_template = "/v1/organizations/{id}";
        request = request_delete_organization;
      }
      ∷ record {
        http_method = "GET";
        pattern = pattern_list_organization_members;
        rpc_method = "/buildapi.v1.OrganizationService/ListOrganizationMembers";
        path_template = "/v1/organizations/{organization_id}/members";
        request = request_list_organization_members;
      }
      ∷ []
