-- ===== src/Organizations/Service/Updating.antt =====
-- What an update of an organization changes.
use build_api.Common.{
  suc, Char, String, ◌==◌, ◌≡◌, ◌⊎◌, refl, sym, ◌∙◌, ap, Bool, true, ◌&&◌, List, [], ◌∷◌, map,
  Result, ok, arith, if◌then◌else◌, Bool-cases, Result-cases, inl, inr,
}
use build_api.World.Tables.{Db, OrgRow, DbError}
use build_api.World.External.{Environment, Postgres}
use build_api.World.Effect.{World}
use build_api.Auth.Context.{Context, user_id_from_context}
use build_api.Api.OrganizationMessages.{Organization, UpdateOrganizationRequest}
use build_api.Organizations.Sql.{select_role}
use build_api.Organizations.Update.{assemble, placeholder, assign_at, clashes, update_org}
use build_api.Organizations.Update.Placeholders.{
  requested, requested_columns, assemble-binds, assign-requested,
}
use build_api.Organizations.Service.{update_organization, apply_update}
use build_api.Organizations.Service.Roles.{
  HasRole, HasRole-same, select_role-HasRole, select_role-frame, get_organization-frame,
}

-- The tables with one organization as a request asks for.
abbrev pub with_requested : (Char → Char) → UpdateOrganizationRequest → String → Db → Db
with_requested lower req oid db = record db {
  organizations = map (λ o. if o.id == oid then requested lower req o else o) db.organizations;
}

map-agree :
    (f g : OrgRow → OrgRow) (rows : List OrgRow)
    → ((o : OrgRow) → f o ≡ g o)
    → map f rows ≡ map g rows
map-agree f g [] h = refl
map-agree f g (o ∷ rows) h = rw (h o, map-agree f g rows h) refl

map-same : (f : OrgRow → OrgRow) (rows : List OrgRow) → ((o : OrgRow) → f o ≡ o) → map f rows ≡ rows
map-same f [] h = refl
map-same f (o ∷ rows) h = rw (h o, map-same f rows h) refl

module _ (pg : Postgres) (lower : Char → Char) (req : UpdateOrganizationRequest) (db : Db) where
  abbrev updated : Result DbError (Unit {0}) × Db
  updated = update_org pg (assemble lower req).set_clause (req.id ∷ (assemble lower req).args) db

  abbrev asked : String → OrgRow → OrgRow
  asked oid o = if o.id == oid then requested lower req o else o

  same_row :
      (oid : String) (o : OrgRow) → assign_at oid (requested_columns lower req) o ≡ asked oid o
  same_row oid o = rw (assign-requested lower req o) refl

  -- The statement that succeeds leaves the row that the request asks for.
  update_org-requested :
      updated.0 ≡ ok tt
      → (oid : String) × (pg.uuid_in req.id ≡ ok oid)
        × (updated.1 ≡ with_requested lower req oid db)
  unfolding update_org placeholder
  update_org-requested done = elim (Result-cases (pg.uuid_in req.id)) [
    | inr (e, bad) ↦ absurd (ground arith)
    | inl (oid, known) ↦
        elim (Bool-cases (clashes oid (requested_columns lower req) db.organizations)) [
          | inl clash ↦ absurd (ground (arith, assemble-binds lower req))
          | inr free ↦ (
            oid,
            known,
            ground (
              arith,
              assemble-binds lower req,
              map-agree (assign_at oid (requested_columns lower req)) (asked oid) db.organizations
                  (same_row oid),
            ),
          )
        ]
  ]

module _ {K Q : Type 0} (env : Environment K Q) (ctx : Context)
    (req : UpdateOrganizationRequest) where
  abbrev nothing_asked : Bool
  nothing_asked = req.name == "" && req.slug == "" && req.plan == ""

  nothing-requested :
      (oid : String) (db : Db)
      → nothing_asked ≡ true
      → db ≡ with_requested env.lower_beyond req oid db
  nothing-requested oid db h = sym (
      ap (λ rows. record db { organizations = rows })
        (map-same (asked env.pg env.lower_beyond req db oid) db.organizations (λ o. ground arith)))

  apply_update-requested :
      (w : World K) (o : Organization) (oid : String)
      → env.pg.uuid_in req.id ≡ ok oid
      → (apply_update env ctx req w).0 ≡ ok o
      → ((apply_update env ctx req w).1.db ≡ with_requested env.lower_beyond req oid w.db)
  unfolding apply_update
  apply_update-requested w o oid known done = elim (Bool-cases nothing_asked) [
    | inl nothing ↦
        let kept = (get_organization-frame env ctx req.id w).0 in
        ground (arith, kept, nothing-requested oid w.db nothing)
    | inr something ↦ elim (Result-cases (updated env.pg env.lower_beyond req w.db).0) [
      | inr (e, failed) ↦ absurd (ground arith)
      | inl (_, good) ↦
          let (oid', known', left) = update_org-requested env.pg env.lower_beyond req w.db good in
          let same : oid' ≡ oid = cc in
          let v : World K = record w {
            db = (updated env.pg env.lower_beyond req w.db).1;
            step = suc w.step;
          } in
          let kept = (get_organization-frame env ctx req.id v).0 in
          let there = left ∙ ap (λ i. with_requested env.lower_beyond req i w.db) same in
          ground (arith, kept, there)
    ]
  ]

  updating_role :
      (w : World K) (o : Organization) (role : String)
      → (select_role env.pg w.db_now (user_id_from_context ctx) req.id w.db).0 ≡ ok role
      → (update_organization env ctx req w).0 ≡ ok o
      → HasRole env ctx req.id "owner" w ⊎ HasRole env ctx req.id "admin" w
  unfolding update_organization
  updating_role w o role found done =
      let same = select_role-frame env (user_id_from_context ctx) req.id w.db_now w.db in
      let has = select_role-HasRole env ctx req.id role w.db_now w found in
      elim (Bool-cases (role == "owner")) [
        | inl owner ↦ inl (HasRole-same env ctx req.id role "owner" w has owner)
        | inr not_owner ↦ elim (Bool-cases (role == "admin")) [
          | inl admin ↦ inr (HasRole-same env ctx req.id role "admin" w has admin)
          | inr not_admin ↦ absurd (ground (arith, same))
        ]
      ]

  -- An update that is answered without an error was asked for by an owner or an admin of the
  -- organization, and leaves the tables as they were but for the organization's row, in which
  -- the fields that the request gives are replaced (the name and the slug trimmed, the slug in lower
  -- case) and the others stay.
  pub update_organization-ok :
      (w : World K) (o : Organization)
      → (update_organization env ctx req w).0 ≡ ok o
      → (HasRole env ctx req.id "owner" w ⊎ HasRole env ctx req.id "admin" w)
        × ((oid : String) × (env.pg.uuid_in req.id ≡ ok oid)
            × ((update_organization env ctx req w).1.db
                ≡ with_requested env.lower_beyond req oid w.db))
  unfolding update_organization
  update_organization-ok w o done =
      let same = select_role-frame env (user_id_from_context ctx) req.id w.db_now w.db in
      elim (Result-cases (select_role env.pg w.db_now (user_id_from_context ctx) req.id w.db).0) [
        | inr (e, missing) ↦ absurd (ground (arith, same))
        | inl (role, found) ↦
            let (uid, oid, user, org, held) =
              select_role-HasRole env ctx req.id role w.db_now w found in
            let v : World K = record w {
              db = (select_role env.pg w.db_now (user_id_from_context ctx) req.id w.db).1;
              step = suc w.step;
            } in
            let applied = apply_update-requested v o oid org (ground (arith, same)) in
            (updating_role w o role found done, (oid, org, ground (arith, same, applied)))
      ]
