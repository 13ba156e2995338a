-- ===== src/Organizations/Rpc.antt =====
-- The service `OrganizationService` as the server dispatches it:
-- api/gen/buildapi/v1/organizations_grpc.pb.go.
pub mod Access
pub mod Frame
pub mod Isolation
pub mod Members
use build_api.Common.{String, List}
use build_api.Api.OrganizationMessages.{
  Organization, CreateOrganizationRequest, UpdateOrganizationRequest, OrganizationMember,
}
use build_api.Api.Methods.{
  list_organizations_method, get_organization_method, create_organization_method,
  update_organization_method, delete_organization_method, list_organization_members_method,
}
use build_api.World.External.{Environment}
use build_api.World.Effect.{World, Action, ◌>>=◌, pure}
use build_api.Auth.Context.{Context}
use build_api.Auth.Middleware.{unary_server_interceptor}
use build_api.Organizations.Service.{
  list_organizations, get_organization, create_organization, update_organization,
  delete_organization, list_organization_members,
}

-- A decoded request of the service.
pub data OrganizationCall : Type 0 where
  list : OrganizationCall
  get delete members : String → OrganizationCall
  create : CreateOrganizationRequest → OrganizationCall
  update : UpdateOrganizationRequest → OrganizationCall

pub data OrganizationReply : Type 0 where
  organizations : List Organization → OrganizationReply
  organization : Organization → OrganizationReply
  deleted : OrganizationReply
  member_list : List OrganizationMember → OrganizationReply

-- The method that a handler's `info` names.
abbrev pub organization_method : OrganizationCall → String
organization_method list = list_organizations_method
organization_method (get id) = get_organization_method
organization_method (create req) = create_organization_method
organization_method (update req) = update_organization_method
organization_method (delete id) = delete_organization_method
organization_method (members id) = list_organization_members_method

module _ {K Q : Type 0} (env : Environment K Q) where
  -- The `handler` closures, which call the service.
  unfoldable pub run_organization_call : Context → OrganizationCall → Action K OrganizationReply
  run_organization_call ctx list = do os ← list_organizations env ctx; pure (organizations os)
  run_organization_call ctx (get id) = do o ← get_organization env ctx id; pure (organization o)
  run_organization_call ctx (create req) = do
    o ← create_organization env ctx req
    pure (organization o)
  run_organization_call ctx (update req) = do
    o ← update_organization env ctx req
    pure (organization o)
  run_organization_call ctx (delete id) = do _ ← delete_organization env ctx id; pure deleted
  run_organization_call ctx (members id) = do
    ms ← list_organization_members env ctx id
    pure (member_list ms)

  -- The `_OrganizationService_*_Handler` functions, with the interceptor that `main` installs.
  unfoldable pub serve_organization_call :
      String → Context → OrganizationCall → Action K OrganizationReply
  serve_organization_call secret ctx call =
      unary_server_interceptor env secret ctx call (organization_method call) run_organization_call
