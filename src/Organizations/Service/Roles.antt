-- ===== src/Organizations/Service/Roles.antt =====
-- Which members may change an organization.
use build_api.Common.{
  ℕ, String, ◌==◌, eq_iff, ◌≡◌, ◌≢◌, ◌⊎◌, inl, inr, Bool, true, ◌&&◌, List, [], ◌∷◌, ok, arith, map,
  Result-cases, Bool-cases, subst,
}
use build_api.Common.Lists.{any_row, where_rows, first_row}
use build_api.Api.OrganizationMessages.{UpdateOrganizationRequest}
use build_api.World.Tables.{Db, MemberRow}
use build_api.World.External.{Environment}
use build_api.World.Effect.{World}
use build_api.World.Sql.{is_membership, one_row}
use build_api.Auth.Context.{Context, user_id_from_context}
use build_api.Cluster.{count_builders}
use build_api.Organizations.Sql.{select_role, select_org}
use build_api.Organizations.Service.{
  update_organization, delete_organization, get_organization, count_builders_in_namespace,
}

any_role :
    (p : MemberRow → Bool) (rows : List MemberRow) (role : String)
    → one_row (first_row (λ r. Bool.true) (map (λ m. m.role) (where_rows p rows))) ≡ ok role
    → any_row (λ m. p m && m.role == role) rows ≡ true
any_role p [] role h = cc
any_role p (m ∷ rows) role h = ground (arith, any_role p rows role, eq_iff m.role role)

module _ {K Q : Type 0} (env : Environment K Q) where
  -- The table has a membership of the request's user in the organization with the role.
  abbrev pub HasRole : Context → String → String → World K → Type 0
  HasRole ctx org_id role w =
      (uid : String) × (oid : String) × (env.pg.uuid_in (user_id_from_context ctx) ≡ ok uid)
      × (env.pg.uuid_in org_id ≡ ok oid)
      × (any_row (λ m. is_membership uid oid m && m.role == role) w.db.members ≡ true)

  pub select_role-HasRole :
      (ctx : Context) (org_id role : String) (now : ℕ) (w : World K)
      → (select_role env.pg now (user_id_from_context ctx) org_id w.db).0 ≡ ok role
      → HasRole ctx org_id role w
  unfolding select_role
  select_role-HasRole ctx org_id role now w h =
      elim (Result-cases (env.pg.uuid_in (user_id_from_context ctx))) [
        | inr (e, bad) ↦ absurd (ground arith)
        | inl (uid, user) ↦ elim (Result-cases (env.pg.uuid_in org_id)) [
          | inr (e, bad) ↦ absurd (ground arith)
          | inl (oid, org) ↦ (
            uid,
            oid,
            user,
            org,
            any_role (is_membership uid oid) w.db.members role (ground arith),
          )
        ]
      ]

  pub select_role-frame :
      (user_id org_id : String) (now : ℕ) (db : Db)
      → (select_role env.pg now user_id org_id db).1 ≡ db
  unfolding select_role
  select_role-frame user_id org_id now db = ground arith

  pub get_organization-frame :
      (ctx : Context) (id : String) (w : World K)
      → ((get_organization env ctx id w).1.db ≡ w.db)
        × ((get_organization env ctx id w).1.cluster ≡ w.cluster)
  unfolding get_organization select_org count_builders_in_namespace count_builders
  get_organization-frame ctx id w = ground arith

  pub HasRole-same :
      (ctx : Context) (org_id a b : String) (w : World K)
      → HasRole ctx org_id a w
      → (a == b) ≡ true
      → HasRole ctx org_id b w
  HasRole-same ctx org_id a b w h same = subst (λ r. HasRole ctx org_id r w) ((eq_iff a b).0 same) h

  -- Only an owner or an admin of an organization can change a table by `UpdateOrganization`.
  pub update_organization-role :
      (ctx : Context) (req : UpdateOrganizationRequest) (w : World K)
      → (update_organization env ctx req w).1.db ≢ w.db
      → HasRole ctx req.id "owner" w ⊎ HasRole ctx req.id "admin" w
  unfolding update_organization
  update_organization-role ctx req w changed =
      let same = select_role-frame (user_id_from_context ctx) req.id w.db_now w.db in
      elim (Result-cases (select_role env.pg w.db_now (user_id_from_context ctx) req.id w.db).0) [
        | inr (e, missing) ↦ absurd (changed (ground (arith, same)))
        | inl (role, found) ↦
            let has = select_role-HasRole ctx req.id role w.db_now w found in
            elim (Bool-cases (role == "owner")) [
              | inl owner ↦ inl (HasRole-same ctx req.id role "owner" w has owner)
              | inr not_owner ↦ elim (Bool-cases (role == "admin")) [
                | inl admin ↦ inr (HasRole-same ctx req.id role "admin" w has admin)
                | inr not_admin ↦ absurd (changed (ground (arith, same)))
              ]
            ]
      ]

  -- A request to delete an organization that does not come from its owner changes neither a table
  -- nor the cluster.
  pub delete_organization-owner :
      (ctx : Context) (id : String) (w : World K)
      → HasRole ctx id "owner" w
        ⊎ (((delete_organization env ctx id w).1.db ≡ w.db)
            × ((delete_organization env ctx id w).1.cluster ≡ w.cluster))
  unfolding delete_organization
  delete_organization-owner ctx id w =
      let same = select_role-frame (user_id_from_context ctx) id w.db_now w.db in
      elim (Result-cases (select_role env.pg w.db_now (user_id_from_context ctx) id w.db).0) [
        | inr (e, missing) ↦ inr (ground (arith, same), ground (arith, same))
        | inl (role, found) ↦
            let has = select_role-HasRole ctx id role w.db_now w found in
            elim (Bool-cases (role == "owner")) [
              | inl owner ↦ inl (HasRole-same ctx id role "owner" w has owner)
              | inr not_owner ↦ inr (ground (arith, same), ground (arith, same))
            ]
      ]
