-- ===== src/Organizations/Service/Listing.antt =====
-- What `ListOrganizations` answers.
use build_api.Common.{String, ◌==◌, Bool, List, Result, ok, err}
use build_api.Common.Int.{ℤ, pos, to_int32}
use build_api.Common.Lists.{any_row, where_rows, length}
use build_api.World.Tables.{Db, OrgRow}
use build_api.World.External.{Environment, KubeError, BuilderCr}
use build_api.World.Effect.{World}
use build_api.World.Sql.{is_membership}
use build_api.Auth.Context.{Context}
use build_api.Api.OrganizationMessages.{Organization}
use build_api.Organizations.Service.{proto_org}

-- The user is a member of the organization.
abbrev pub is_member_of : String → Db → OrgRow → Bool
is_member_of uid db o = any_row (is_membership uid o.id) db.members

module _ {K Q : Type 0} (env : Environment K Q) where
  abbrev counted : Result KubeError (List BuilderCr) → ℤ
  counted (ok items) = to_int32 (length items)
  counted (err e) = pos 0

  -- An organization as an answer shows it, with its members and the builders of its namespace, which
  -- count as none where the cluster does not list them.
  abbrev pub shown : Db → K → OrgRow → Organization
  shown db k o =
      proto_org env.pg.epoch o (length (where_rows (λ m. m.organization_id == o.id) db.members))
        (counted (env.kube.list_builders o.id k))
