-- ===== src/Invariant/OrgCalls.antt =====
-- Calls of the organization service and the rows of other organizations.
use build_api.Common.{
  ℕ, String, ◌==◌, eq_iff, ◌≡◌, ◌≢◌, ◌⊎◌, refl, sym, ◌∙◌, subst, ap, none, List, ◌∷◌, ok, err,
  arith, Bool-cases, Result-cases, inl, inr,
}
use build_api.World.Tables.{Db, DbError}
use build_api.World.External.{Environment}
use build_api.World.Effect.{World, Action, ◌>>=◌, pure, state-wrap}
use build_api.Auth.Context.{Context, user_id_from_context}
use build_api.Auth.Scopes.{has_scope}
use build_api.Api.OrganizationMessages.{CreateOrganizationRequest, UpdateOrganizationRequest}
use build_api.Cluster.{ensure_org_namespace, count_builders}
use build_api.Membership.Rows.{IsMember}
use build_api.Organizations.Sql.{
  insert_org, insert_owner, delete_org, select_org_created, select_role,
}
use build_api.Organizations.Update.{Column, assemble, update_org, placeholder}
use build_api.Organizations.Service.{
  create_organization, update_organization, delete_organization, store_organization, or_roll_back,
  count_builders_in_namespace,
}
use build_api.Organizations.Service.Atomic.{create_organization-cases}
use build_api.Organizations.Service.Roles.{
  select_role-HasRole, select_role-frame, delete_organization-owner,
}
use build_api.Organizations.Rpc.{
  OrganizationCall, list, get, members, create, update, delete, run_organization_call,
}
use build_api.Organizations.Rpc.Frame.{run_organization_call-reads}
use build_api.Organizations.Rpc.Isolation.{HasRole-IsMember}
use build_api.Invariant.Handlers.{delete_organization-keeps, store_organization-keeps}
use build_api.Invariant.RegisterUpdate.{update_organization-db}
use build_api.Invariant.OrgRows.{
  SameOrg, delete_org-SameOrg, insert_owner-SameOrg, update_org-SameOrg, insert_org-SameOrg,
}

module _ {K Q : Type 0} (env : Environment K Q) (ns oid : String)
    (known : env.pg.uuid_in ns ≡ ok oid) (ctx : Context) (w : World K) where
  abbrev new_id : String
  new_id = env.pg.gen_random_uuid w.db.drawn

  abbrev Kept : Db → Type 0
  Kept = SameOrg oid w.db

  SameOrg-trans : (a b : Db) → Kept a → SameOrg oid a b → Kept b
  SameOrg-trans a b h k = (k.0 ∙ h.0, k.1 ∙ h.1)

  unchanged : {d : Db} → d ≡ w.db → Kept d
  unchanged same = subst Kept (sym same) (refl, refl)

  -- A member of an organization that is named by another text is a member of it by any text.
  IsMember-uuid_in :
      (id : String) → env.pg.uuid_in id ≡ ok oid → IsMember env ctx id w → IsMember env ctx ns w
  IsMember-uuid_in id same (uid, oid', user, org, held) =
      let here : oid' ≡ oid = cc in (uid, oid', user, known ∙ cc, held)

  inserted-id :
      (name slug plan id : String)
      → (insert_org env.pg w.db_now name slug plan w.db).0 ≡ ok id
      → id ≡ new_id
  unfolding insert_org
  inserted-id name slug plan id inserted = ground arith

  delete_org-nowhere :
      (id : String) (e : DbError)
      → env.pg.uuid_in id ≡ err e
      → Kept (delete_org env.pg w.db_now id w.db).1
  unfolding delete_org
  delete_org-nowhere id e bad = ground arith

  update_org-nowhere :
      (clauses : List (Column × ℕ)) (args : List String) (id : String) (e : DbError)
      → env.pg.uuid_in id ≡ err e
      → Kept (update_org env.pg clauses (id ∷ args) w.db).1
  unfolding update_org placeholder
  update_org-nowhere clauses args id e bad = ground arith

  store_organization-SameOrg :
      (user_id name slug plan : String)
      → env.pg.uuid_in new_id ≡ ok new_id
      → new_id ≢ oid
      → Kept (store_organization env user_id name slug plan w).1.db
  unfolding store_organization or_roll_back select_org_created ensure_org_namespace
      count_builders_in_namespace count_builders
  store_organization-SameOrg user_id name slug plan canonical fresh =
      let with_org = insert_org-SameOrg env.pg w.db_now oid name slug plan w.db fresh in
      let db = (insert_org env.pg w.db_now name slug plan w.db).1 in
      let db' = (insert_owner env.pg w.db_now user_id new_id db).1 in
      let with_owner =
        SameOrg-trans db db' with_org
          (insert_owner-SameOrg env.pg w.db_now oid new_id db fresh user_id new_id canonical) in
      elim (Result-cases (insert_org env.pg w.db_now name slug plan w.db).0) [
        | inr (e, failed) ↦ ground (arith, with_org)
        | inl (id, inserted) ↦
            let this = inserted-id name slug plan id inserted in
            store_organization-keeps env "" (record { principal = none; metadata = none }) w Kept
              user_id name slug plan new_id (inserted ∙ ap (λ i. ok i) this) (refl, refl) with_org
              with_owner
              (SameOrg-trans db (delete_org env.pg w.db_now new_id db).1 with_org
                (delete_org-SameOrg env.pg w.db_now oid new_id db fresh new_id canonical))
              (SameOrg-trans db' (delete_org env.pg w.db_now new_id db').1 with_owner
                (delete_org-SameOrg env.pg w.db_now oid new_id db' fresh new_id canonical))
      ]

  delete_organization-SameOrg :
      (id : String) → IsMember env ctx ns w ⊎ Kept (delete_organization env ctx id w).1.db
  delete_organization-SameOrg id = elim (Result-cases (env.pg.uuid_in id)) [
    | inr (e, bad) ↦
        inr (
          delete_organization-keeps env "" ctx w Kept id (refl, refl) (delete_org-nowhere id e bad))
    | inl (other, named) ↦ elim (Bool-cases (other == oid)) [
      | inr differs ↦ inr (
          delete_organization-keeps env "" ctx w Kept id (refl, refl)
            (delete_org-SameOrg env.pg w.db_now oid other w.db
              (λ e. ground (arith, eq_iff other oid)) id named))
      | inl same ↦ elim (delete_organization-owner env ctx id w) [
        | inr (kept, _) ↦ inr (unchanged kept)
        | inl owner ↦ inl (
            IsMember-uuid_in id (named ∙ ap (λ i. ok i) ((eq_iff other oid).0 same))
              (HasRole-IsMember env ctx id "owner" w owner))
      ]
    ]
  ]

  update_organization-refused :
      (req : UpdateOrganizationRequest) (e : DbError)
      → (select_role env.pg w.db_now (user_id_from_context ctx) req.id w.db).0 ≡ err e
      → (update_organization env ctx req w).1.db ≡ w.db
  unfolding update_organization
  update_organization-refused req e missing =
      let frame = select_role-frame env (user_id_from_context ctx) req.id w.db_now w.db in
      ground (arith, frame, missing)

  update_organization-SameOrg :
      (req : UpdateOrganizationRequest)
      → IsMember env ctx ns w ⊎ Kept (update_organization env ctx req w).1.db
  update_organization-SameOrg req =
      let a = assemble env.lower_beyond req in
      elim (Result-cases (env.pg.uuid_in req.id)) [
        | inr (e, bad) ↦ inr (
            update_organization-db env w Kept (refl, refl) ctx req
              (update_org-nowhere a.set_clause a.args req.id e bad))
        | inl (other, named) ↦ elim (Bool-cases (other == oid)) [
          | inr differs ↦ inr (
              update_organization-db env w Kept (refl, refl) ctx req
                (update_org-SameOrg env.pg w.db_now oid other w.db
                  (λ e. ground (arith, eq_iff other oid)) a.set_clause req.id a.args named))
          | inl same ↦
              elim (Result-cases
                (select_role env.pg w.db_now (user_id_from_context ctx) req.id w.db).0) [
                  | inr (e, missing) ↦ inr (unchanged (update_organization-refused req e missing))
                  | inl (role, found) ↦ inl (
                      IsMember-uuid_in req.id (named ∙ ap (λ i. ok i) ((eq_iff other oid).0 same)) (
                        HasRole-IsMember env ctx req.id role w
                          (select_role-HasRole env ctx req.id role w.db_now w found)))
                ]
        ]
      ]

  create_organization-SameOrg :
      (req : CreateOrganizationRequest)
      → env.pg.uuid_in new_id ≡ ok new_id
      → new_id ≢ oid
      → Kept (create_organization env ctx req w).1.db
  create_organization-SameOrg req canonical fresh = elim (create_organization-cases env ctx req w) [
    | inl (s, refused) ↦ rw refused (refl, refl)
    | inr (stored, _, _, _) ↦ rw stored (store_organization-SameOrg _ _ _ _ canonical fresh)
  ]

  kept :
      {A B : Type 0} (m : Action K A) (f : A → B)
      → IsMember env ctx ns w ⊎ Kept (m w).1.db
      → IsMember env ctx ns w ⊎ Kept ((m >>= (λ r. pure (f r))) w).1.db
  kept m f = subst (λ v. IsMember env ctx ns w ⊎ Kept v.db) (sym (state-wrap m f w))

  -- A call leaves an organization's row and its memberships alone, unless its caller is a member, or
  -- the database draws the organization's identifier again.
  pub run_organization_call-SameOrg :
      (c : OrganizationCall)
      → env.pg.uuid_in new_id ≡ ok new_id
      → new_id ≢ oid
      → IsMember env ctx ns w ⊎ Kept (run_organization_call env ctx c w).1.db
  unfolding run_organization_call has_scope
  run_organization_call-SameOrg list canonical fresh =
      inr (unchanged (run_organization_call-reads env ctx list w refl).0)
  run_organization_call-SameOrg (get id) canonical fresh =
      inr (unchanged (run_organization_call-reads env ctx (get id) w refl).0)
  run_organization_call-SameOrg (members id) canonical fresh =
      inr (unchanged (run_organization_call-reads env ctx (members id) w refl).0)
  run_organization_call-SameOrg (create req) canonical fresh =
      kept (create_organization env ctx req) _
        (inr (create_organization-SameOrg req canonical fresh))
  run_organization_call-SameOrg (update req) canonical fresh =
      kept (update_organization env ctx req) _ (update_organization-SameOrg req)
  run_organization_call-SameOrg (delete id) canonical fresh =
      kept (delete_organization env ctx id) _ (delete_organization-SameOrg id)
