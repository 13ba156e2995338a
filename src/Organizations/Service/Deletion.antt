-- ===== src/Organizations/Service/Deletion.antt =====
-- What is left of an organization that was deleted, and when a deletion goes through.
use build_api.Common.{
  ℕ, suc, eq_iff, String, ◌==◌, ◌=?◌, ◌≡◌, Bool, true, false, not, List, [], ◌∷◌, none, ok, arith,
  Result-cases, inl, inr,
}
use build_api.Common.Lists.{any_row, where_rows, length}
use build_api.World.Tables.{Db}
use build_api.World.External.{Environment}
use build_api.World.Effect.{World}
use build_api.Auth.Context.{Context, user_id_from_context}
use build_api.Cluster.{delete_org_namespace}
use build_api.Organizations.Sql.{select_role, delete_org}
use build_api.Organizations.Service.{delete_organization}
use build_api.Organizations.Service.Roles.{HasRole, select_role-HasRole, select_role-frame}

-- The tables without an organization and its memberships.
abbrev pub without_org : String → Db → Db
without_org oid db = record db {
  organizations = where_rows (λ o. not (o.id == oid)) db.organizations;
  members = where_rows (λ m. not (m.organization_id == oid)) db.members;
}

length-where_rows :
    {A : Type 0}
    → (p : A → Bool) (rows : List A) → any_row p rows ≡ true
    → (length (where_rows p rows) =? 0) ≡ false
length-where_rows p [] h = absurd (ground arith)
length-where_rows p (x ∷ rows) h = ground (arith, length-where_rows p rows)

module _ {K Q : Type 0} (env : Environment K Q) (ctx : Context) (id : String) (w : World K) where
  -- A deletion that answers without an error was asked for by the owner of the organization, and
  -- leaves the tables as they were but for the organization and its memberships, which are gone.
  pub delete_organization-ok :
      (delete_organization env ctx id w).0 ≡ ok tt
      → HasRole env ctx id "owner" w
        × ((oid : String) × (env.pg.uuid_in id ≡ ok oid)
            × ((delete_organization env ctx id w).1.db ≡ without_org oid w.db))
  unfolding delete_organization delete_org delete_org_namespace
  delete_organization-ok answered =
      let same = select_role-frame env (user_id_from_context ctx) id w.db_now w.db in
      elim (Result-cases (select_role env.pg w.db_now (user_id_from_context ctx) id w.db).0) [
        | inr (e, missing) ↦ absurd (ground (arith, same))
        | inl (role, found) ↦ elim (Result-cases (env.pg.uuid_in id)) [
          | inr (e, bad) ↦ absurd (ground (arith, same))
          | inl (oid, known) ↦ (
            select_role-HasRole env ctx id "owner" w.db_now w
                (ground (arith, same, eq_iff role "owner")),
            (oid, known, ground (arith, same)),
          )
        ]
      ]

  -- Without an outage, and if the cluster deletes the namespace, a deletion that the owner of an
  -- organization of the table asks for goes through: the organization and its memberships are gone,
  -- the other rows stay, and the namespace was deleted once.
  pub delete_organization-succeeds :
      (oid : String)
      → (calm : (n : ℕ) → env.pg.outage n ≡ none) → (user_id_from_context ctx == "") ≡ false
      → (id == "") ≡ false
      → env.pg.uuid_in id ≡ ok oid
      → (select_role env.pg w.db_now (user_id_from_context ctx) id w.db).0 ≡ ok "owner"
      → (env.kube.delete_namespace id w.cluster).0 ≡ none
      → any_row (λ o. o.id == oid) w.db.organizations ≡ true
      → ((delete_organization env ctx id w).0 ≡ ok tt)
        × ((delete_organization env ctx id w).1.db ≡ without_org oid w.db)
        × ((delete_organization env ctx id w).1.cluster
            ≡ (env.kube.delete_namespace id w.cluster).1)
  unfolding delete_organization delete_org delete_org_namespace
  delete_organization-succeeds oid calm signed_in given uuid owner gone there =
      let same = select_role-frame env (user_id_from_context ctx) id w.db_now w.db in
      ground (
        arith,
        same,
        calm w.step,
        calm (suc w.step),
        length-where_rows (λ o. o.id == oid) w.db.organizations,
      )
