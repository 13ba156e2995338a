-- ===== src/Organizations/Sql.antt =====
-- The SQL statements of internal/organizations/service.go, but for UPDATE.
use build_api.Common.{
  ℕ, suc, String, ◌==◌, Bool, ◌&&◌, ◌||◌, not, List, [], ◌∷◌, ◌++◌, map, Result, ok, if◌then◌else◌,
}
use build_api.Common.Lists.{first_row, any_row, where_rows, length}
use build_api.World.Tables.{Db, UserRow, OrgRow, MemberRow, DbError}
use build_api.World.External.{Postgres}
use build_api.World.Sql.{
  with_uuid, one_row, violation, unique_violation, foreign_key_violation, is_membership,
}

-- One row of the join for each membership of the organization that the test selects.
abbrev pub repeat_for {ℓ} : {A : Type ℓ} → A → List MemberRow → List A
repeat_for a [] = []
repeat_for a (m ∷ ms) = a ∷ repeat_for a ms

abbrev pub join_orgs : String → List MemberRow → List OrgRow → List OrgRow
join_orgs uid members [] = []
join_orgs uid members (o ∷ orgs) =
    repeat_for o (where_rows (is_membership uid o.id) members) ++ join_orgs uid members orgs

-- SELECT COUNT(*) FROM organization_members om WHERE om.organization_id = o.id
abbrev pub member_count : Db → OrgRow → ℕ
member_count db o = length (where_rows (λ m. m.organization_id == o.id) db.members)

abbrev pub with_count : Db → OrgRow → OrgRow × ℕ
with_count db o = (o, member_count db o)

abbrev users_of : MemberRow → List UserRow → List (MemberRow × UserRow)
users_of m [] = []
users_of m (u ∷ users) = if u.id == m.user_id then (m, u) ∷ users_of m users else users_of m users

abbrev pub join_members : String → List UserRow → List MemberRow → List (MemberRow × UserRow)
join_members oid users [] = []
join_members oid users (m ∷ ms) =
    if m.organization_id == oid
    then users_of m users ++ join_members oid users ms
    else join_members oid users ms

module _ (pg : Postgres) (db_now : ℕ) where
  -- The query of `ListOrganizations`
  unfoldable pub select_orgs : String → Db → Result DbError (List (OrgRow × ℕ)) × Db
  select_orgs user_id db =
      with_uuid pg user_id
        (λ uid.
          let rows = pg.order_by_name (join_orgs uid db.members db.organizations) in
          (ok (map (with_count db) rows), db))
        db

  -- The query of `GetOrganization`
  unfoldable pub select_org : String → String → Db → Result DbError (OrgRow × ℕ) × Db
  select_org org_id user_id db =
      with_uuid pg org_id
        (λ oid.
          with_uuid pg user_id
            (λ uid.
              let rows =
                where_rows (λ o. o.id == oid) (join_orgs uid db.members db.organizations) in
              (one_row (first_row (λ r. Bool.true) (map (with_count db) rows)), db))
            db)
        db

  -- INSERT INTO organizations (name, slug, plan) VALUES ($1, $2, $3) RETURNING id
  unfoldable pub insert_org : String → String → String → Db → Result DbError String × Db
  insert_org name slug plan db =
      let id = pg.gen_random_uuid db.drawn in
      if any_row (λ o. o.slug == slug) db.organizations
        || any_row (λ o. o.id == id) db.organizations
      then (violation pg unique_violation, db)
      else (let row : OrgRow = record {
        id = id;
        name = name;
        slug = slug;
        plan = plan;
        created_at = db_now;
      } in
          (ok id, record db { organizations = db.organizations ++ row ∷ []; drawn = suc db.drawn }))

  -- INSERT INTO organization_members (user_id, organization_id, role) VALUES ($1, $2, 'owner')
  unfoldable pub insert_owner : String → String → Db → Result DbError (Unit {0}) × Db
  insert_owner user_id org_id db =
      with_uuid pg user_id
        (λ uid.
          with_uuid pg org_id
            (λ oid.
              if any_row (is_membership uid oid) db.members
              then (violation pg unique_violation, db)
              else if any_row (λ u. u.id == uid) db.users
                  && any_row (λ o. o.id == oid) db.organizations
              then (let row : MemberRow = record {
                user_id = uid;
                organization_id = oid;
                role = "owner";
                joined_at = db_now;
              } in
                  (ok tt, record db { members = db.members ++ row ∷ [] }))
              else (violation pg foreign_key_violation, db))
            db)
        db

  -- DELETE FROM organizations WHERE id = $1, with the number of rows affected; memberships go too
  unfoldable pub delete_org : String → Db → Result DbError ℕ × Db
  delete_org org_id db =
      with_uuid pg org_id
        (λ oid. (
          ok (length (where_rows (λ o. o.id == oid) db.organizations)),
          record db {
            organizations = where_rows (λ o. not (o.id == oid)) db.organizations;
            members = where_rows (λ m. not (m.organization_id == oid)) db.members;
          },
        ))
        db

  -- SELECT EXTRACT(EPOCH FROM created_at)::bigint FROM organizations WHERE id = $1
  unfoldable pub select_org_created : String → Db → Result DbError ℕ × Db
  select_org_created org_id db =
      with_uuid pg org_id
        (λ oid. (
          one_row (
              first_row (λ r. Bool.true)
                (map (λ o. pg.epoch o.created_at)
                  (where_rows (λ o. o.id == oid) db.organizations))),
          db,
        ))
        db

  -- SELECT role FROM organization_members WHERE user_id = $1 AND organization_id = $2
  unfoldable pub select_role : String → String → Db → Result DbError String × Db
  select_role user_id org_id db =
      with_uuid pg user_id
        (λ uid.
          with_uuid pg org_id
            (λ oid. (
              one_row (
                  first_row (λ r. Bool.true)
                    (map (λ m. m.role) (where_rows (is_membership uid oid) db.members))),
              db,
            ))
            db)
        db

  -- The second query of `ListOrganizationMembers`
  unfoldable pub select_members : String → Db → Result DbError (List (MemberRow × UserRow)) × Db
  select_members org_id db =
      with_uuid pg org_id
        (λ oid. (ok (pg.order_by_joined_at (join_members oid db.users db.members)), db)) db
