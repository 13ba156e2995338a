-- ===== src/Organizations/Rpc/Frame.antt =====
-- What a call of the organization service leaves alone.
use build_api.Common.{ℕ, suc, String, ◌≡◌, refl, true, List, [], ◌∷◌, arith, Result-cases, inl, inr}
use build_api.World.Tables.{Db, OrgRow}
use build_api.World.External.{Environment}
use build_api.World.Effect.{World}
use build_api.World.Sql.{select_is_member}
use build_api.Auth.Context.{Context, user_id_from_context}
use build_api.Auth.Scopes.{has_scope}
use build_api.Auth.Scopes.Table.{read_methods}
use build_api.Cluster.{count_builders}
use build_api.Organizations.Sql.{select_orgs, select_members}
use build_api.Organizations.Service.{
  list_organizations, with_builders, list_organization_members, count_builders_in_namespace,
}
use build_api.Organizations.Service.Roles.{get_organization-frame}
use build_api.Organizations.Rpc.{
  OrganizationCall, list, get, delete, members, create, update, organization_method,
  run_organization_call,
}

module _ {K Q : Type 0} (env : Environment K Q) (ctx : Context) where
  with_builders-frame : (rows : List (OrgRow × ℕ)) (w : World K) → (with_builders env rows w).1 ≡ w
  unfolding with_builders count_builders_in_namespace count_builders
  with_builders-frame [] w = refl
  with_builders-frame ((o, n) ∷ rows) w = ground (arith, with_builders-frame rows w)

  select_orgs-frame :
      (now : ℕ) (user_id : String) (db : Db) → (select_orgs env.pg now user_id db).1 ≡ db
  unfolding select_orgs
  select_orgs-frame now user_id db = ground arith

  list_organizations-frame :
      (w : World K)
      → ((list_organizations env ctx w).1.db ≡ w.db)
        × ((list_organizations env ctx w).1.cluster ≡ w.cluster)
  unfolding list_organizations
  list_organizations-frame w =
      let same = select_orgs-frame w.db_now (user_id_from_context ctx) w.db in
      let asked : World K = record w {
        db = (select_orgs env.pg w.db_now (user_id_from_context ctx) w.db).1;
        step = suc w.step;
      } in
      elim (Result-cases (select_orgs env.pg w.db_now (user_id_from_context ctx) w.db).0) [
        | inr (e, failed) ↦ ground (arith, same)
        | inl (rows, found) ↦ ground (arith, same, with_builders-frame rows asked)
      ]

  list_organization_members-frame :
      (id : String) (w : World K)
      → ((list_organization_members env ctx id w).1.db ≡ w.db)
        × ((list_organization_members env ctx id w).1.cluster ≡ w.cluster)
  unfolding list_organization_members select_members select_is_member
  list_organization_members-frame id w = ground arith

  -- A call that only reads changes neither a table nor anything in the cluster.
  pub run_organization_call-reads :
      (call : OrganizationCall) (w : World K)
      → has_scope read_methods (organization_method call) ≡ true
      → ((run_organization_call env ctx call w).1.db ≡ w.db)
        × ((run_organization_call env ctx call w).1.cluster ≡ w.cluster)
  unfolding run_organization_call has_scope
  run_organization_call-reads list w h = ground (arith, list_organizations-frame w)
  run_organization_call-reads (get id) w h = ground (arith, get_organization-frame env ctx id w)
  run_organization_call-reads (members id) w h =
      ground (arith, list_organization_members-frame id w)
  run_organization_call-reads (create req) w h = absurd (ground arith)
  run_organization_call-reads (update req) w h = absurd (ground arith)
  run_organization_call-reads (delete id) w h = absurd (ground arith)
