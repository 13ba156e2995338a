-- ===== src/Gateway/Targets/OrganizationRoutes.antt =====
-- The routes of api/gen/buildapi/v1/organizations.pb.gw.go against the calls of the service.
use build_api.Common.{String, inr, List, [], ◌∷◌, refl}
use build_api.Common.Lists.{All}
use build_api.Api.Zero.{zero_create_organization_request, zero_update_organization_request}
use build_api.Auth.Context.{Context}
use build_api.World.Effect.{Action}
use build_api.Organizations.Rpc.{OrganizationCall, OrganizationReply, organization_method}
use build_api.Gateway.Runtime.{Runtime, PathParams}
use build_api.Gateway.Edge.{HttpRequest}
use build_api.Api.Methods.{
  list_organizations_method, get_organization_method, create_organization_method,
  update_organization_method, delete_organization_method, list_organization_members_method,
}
use build_api.Gateway.OrganizationProxy.{
  request_list_organizations, request_get_organization, request_create_organization,
  request_update_organization, request_delete_organization, request_list_organization_members,
  pattern_list_organizations, pattern_get_organization, pattern_create_organization,
  pattern_update_organization, pattern_delete_organization, pattern_list_organization_members,
  register_organization_service_handler_client,
}
use build_api.Gateway.Targets.{Forwards, IsFaithful, Refuses, captured, with_param, with_body}

-- The parameters of the path, and what a call has for them.
abbrev pub organization_targets : OrganizationCall → List (String × String)
organization_targets OrganizationCall.list = []
organization_targets (OrganizationCall.get x) = ("id", x) ∷ []
organization_targets (OrganizationCall.create req) = []
organization_targets (OrganizationCall.update req) = ("id", req.id) ∷ []
organization_targets (OrganizationCall.delete x) = ("id", x) ∷ []
organization_targets (OrganizationCall.members x) = ("organization_id", x) ∷ []

-- The decoder refuses the body that a method reads.
pub data OrganizationRefusal (rt : Runtime) (req : HttpRequest) : String → Type 0 where
  create_organization_body :
      Refuses rt.marshaler.create_organization_request req.body zero_create_organization_request
      → OrganizationRefusal rt req create_organization_method
  update_organization_body :
      Refuses rt.marshaler.update_organization_request req.body zero_update_organization_request
      → OrganizationRefusal rt req update_organization_method

module _ {K : Type 0} (rt : Runtime)
    (client : Context → OrganizationCall → Action K OrganizationReply) where
  request_list_organizations-Forwards :
      (ctx : Context) (req : HttpRequest) (params : PathParams)
      → Forwards rt client organization_method organization_targets
          (OrganizationRefusal rt)
          list_organizations_method
          (captured pattern_list_organizations)
          req
          ctx
          params
          (request_list_organizations rt client ctx req params)
  unfolding request_list_organizations
  request_list_organizations-Forwards ctx req params =
      λ w. inr (OrganizationCall.list, refl, tt, refl)

  request_get_organization-Forwards :
      (ctx : Context) (req : HttpRequest) (params : PathParams)
      → Forwards rt client organization_method organization_targets
          (OrganizationRefusal rt)
          get_organization_method
          (captured pattern_get_organization)
          req
          ctx
          params
          (request_get_organization rt client ctx req params)
  unfolding request_get_organization
  request_get_organization-Forwards ctx req params =
      with_param rt client organization_method organization_targets (OrganizationRefusal rt) _
        (captured pattern_get_organization) _ ctx params "id" refl _
        λ id at_id. λ w. inr (OrganizationCall.get id, refl, (at_id, tt), refl)

  request_create_organization-Forwards :
      (ctx : Context) (req : HttpRequest) (params : PathParams)
      → Forwards rt client organization_method organization_targets
          (OrganizationRefusal rt)
          create_organization_method
          (captured pattern_create_organization)
          req
          ctx
          params
          (request_create_organization rt client ctx req params)
  unfolding request_create_organization
  request_create_organization-Forwards ctx req params =
      with_body rt client organization_method organization_targets (OrganizationRefusal rt) _
        (captured pattern_create_organization) _ ctx params rt.marshaler.create_organization_request
        req.body zero_create_organization_request OrganizationRefusal.create_organization_body _
        λ m. λ w. inr (OrganizationCall.create m, refl, tt, refl)

  request_update_organization-Forwards :
      (ctx : Context) (req : HttpRequest) (params : PathParams)
      → Forwards rt client organization_method organization_targets
          (OrganizationRefusal rt)
          update_organization_method
          (captured pattern_update_organization)
          req
          ctx
          params
          (request_update_organization rt client ctx req params)
  unfolding request_update_organization
  request_update_organization-Forwards ctx req params =
      with_body rt client organization_method organization_targets (OrganizationRefusal rt) _
        (captured pattern_update_organization) _ ctx params rt.marshaler.update_organization_request
        req.body zero_update_organization_request OrganizationRefusal.update_organization_body _
        λ m.
          with_param rt client organization_method organization_targets (OrganizationRefusal rt) _
            (captured pattern_update_organization) _ ctx params "id" refl _
            λ id at_id.
              λ w. inr (OrganizationCall.update (record m { id = id }), refl, (at_id, tt), refl)

  request_delete_organization-Forwards :
      (ctx : Context) (req : HttpRequest) (params : PathParams)
      → Forwards rt client organization_method organization_targets
          (OrganizationRefusal rt)
          delete_organization_method
          (captured pattern_delete_organization)
          req
          ctx
          params
          (request_delete_organization rt client ctx req params)
  unfolding request_delete_organization
  request_delete_organization-Forwards ctx req params =
      with_param rt client organization_method organization_targets (OrganizationRefusal rt) _
        (captured pattern_delete_organization) _ ctx params "id" refl _
        λ id at_id. λ w. inr (OrganizationCall.delete id, refl, (at_id, tt), refl)

  request_list_organization_members-Forwards :
      (ctx : Context) (req : HttpRequest) (params : PathParams)
      → Forwards rt client organization_method organization_targets
          (OrganizationRefusal rt)
          list_organization_members_method
          (captured pattern_list_organization_members)
          req
          ctx
          params
          (request_list_organization_members rt client ctx req params)
  unfolding request_list_organization_members
  request_list_organization_members-Forwards ctx req params =
      with_param rt client organization_method organization_targets (OrganizationRefusal rt) _
        (captured pattern_list_organization_members) _ ctx params "organization_id" refl _
        λ organization_id at_organization_id.
          λ w. inr (OrganizationCall.members organization_id, refl, (at_organization_id, tt), refl)

  -- The route of each method of `OrganizationService` ends in one call of that method, with the targets of the call taken from
  -- the path, or in an error that a parameter or the body explains.
  pub organization_routes-IsFaithful :
      All
        (IsFaithful rt client organization_method organization_targets (OrganizationRefusal rt))
        (register_organization_service_handler_client rt client)
  unfolding register_organization_service_handler_client
  organization_routes-IsFaithful = (
    request_list_organizations-Forwards,
    (
      request_get_organization-Forwards,
      (
        request_create_organization-Forwards,
        (
          request_update_organization-Forwards,
          (request_delete_organization-Forwards, (request_list_organization_members-Forwards, tt)),
        ),
      ),
    ),
  )
