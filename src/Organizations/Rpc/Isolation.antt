-- ===== src/Organizations/Rpc/Isolation.antt =====
-- Calls of the organization service and the namespaces of other organizations.
use build_api.Common.{
  suc, String, ◌==◌, ◌≡◌, ◌≢◌, ◌⊎◌, refl, true, ◌&&◌, Bool, List, [], ◌∷◌, arith, inl, inr, subst,
  sym, ap, eq_iff, Bool-cases,
}
use build_api.Common.Lists.{any_row}
use build_api.World.Tables.{MemberRow}
use build_api.World.External.{Environment}
use build_api.World.Effect.{World, Action, ◌>>=◌, pure, state-wrap}
use build_api.World.Sql.{is_membership}
use build_api.Auth.Context.{Context, user_id_from_context}
use build_api.Auth.Scopes.{has_scope}
use build_api.Api.OrganizationMessages.{CreateOrganizationRequest, UpdateOrganizationRequest}
use build_api.Cluster.{ensure_org_namespace, delete_org_namespace, org_namespace, count_builders}
use build_api.Cluster.Isolation.{Isolated}
use build_api.Membership.Rows.{IsMember}
use build_api.Organizations.Sql.{select_role, insert_org}
use build_api.Organizations.Update.{assemble, update_org}
use build_api.Organizations.Service.{
  create_organization, update_organization, delete_organization, store_organization, apply_update,
  or_roll_back, count_builders_in_namespace,
}
use build_api.Organizations.Service.Atomic.{create_organization-cases}
use build_api.Organizations.Service.Roles.{
  HasRole, delete_organization-owner, get_organization-frame,
}
use build_api.Organizations.Rpc.{
  OrganizationCall, list, get, members, create, update, delete, run_organization_call,
}
use build_api.Organizations.Rpc.Frame.{run_organization_call-reads}

any_row-first :
    (p q : MemberRow → Bool) (rows : List MemberRow)
    → any_row (λ m. p m && q m) rows ≡ true
    → any_row p rows ≡ true
any_row-first p q [] h = h
any_row-first p q (m ∷ rows) h = ground (arith, any_row-first p q rows)

module _ {K Q : Type 0} (env : Environment K Q) where
  -- Whoever has a role in an organization is a member of it.
  pub HasRole-IsMember :
      (ctx : Context) (org_id role : String) (w : World K)
      → HasRole env ctx org_id role w
      → IsMember env ctx org_id w
  HasRole-IsMember ctx org_id role w (uid, oid, user, org, held) = (
    uid,
    oid,
    user,
    org,
    any_row-first (is_membership uid oid) (λ m. m.role == role) w.db.members held,
  )

  apply_update-cluster :
      (ctx : Context) (req : UpdateOrganizationRequest) (w : World K)
      → (apply_update env ctx req w).1.cluster ≡ w.cluster
  unfolding apply_update
  apply_update-cluster ctx req w =
      let a = assemble env.lower_beyond req in
      let written = get_organization-frame env ctx req.id (record w {
        db = (update_org env.pg a.set_clause (req.id ∷ a.args) w.db).1;
        step = suc w.step;
      }) in
      ground (arith, (get_organization-frame env ctx req.id w).1, written.1)

  update_organization-cluster :
      (ctx : Context) (req : UpdateOrganizationRequest) (w : World K)
      → (update_organization env ctx req w).1.cluster ≡ w.cluster
  unfolding update_organization
  update_organization-cluster ctx req w = ground (
    arith,
    apply_update-cluster ctx req (record w {
      db = (select_role env.pg w.db_now (user_id_from_context ctx) req.id w.db).1;
      step = suc w.step;
    }),
  )

module _ {K Q T : Type 0} (env : Environment K Q) (ns : String) (view : K → T)
    (laws : Isolated env.kube ns view) (ctx : Context) (w : World K) where
  store_organization-isolated :
      (user_id name slug plan : String)
      → env.pg.gen_random_uuid w.db.drawn ≢ ns
      → view (store_organization env user_id name slug plan w).1.cluster ≡ view w.cluster
  unfolding store_organization or_roll_back insert_org ensure_org_namespace
      count_builders_in_namespace count_builders
  store_organization-isolated user_id name slug plan fresh = ground (
    arith,
    laws.namespace_created (org_namespace (env.pg.gen_random_uuid w.db.drawn)) w.cluster fresh,
  )

  create_organization-isolated :
      (req : CreateOrganizationRequest)
      → env.pg.gen_random_uuid w.db.drawn ≢ ns
      → view (create_organization env ctx req w).1.cluster ≡ view w.cluster
  create_organization-isolated req fresh = elim (create_organization-cases env ctx req w) [
    | inl (s, refused) ↦ rw refused
    | inr (stored, _, _, _) ↦ rw stored (store_organization-isolated _ _ _ _ fresh)
  ]

  delete_organization-isolated :
      (id : String) → id ≢ ns → view (delete_organization env ctx id w).1.cluster ≡ view w.cluster
  unfolding delete_organization delete_org_namespace
  delete_organization-isolated id other = ground (arith, laws.namespace_deleted id w.cluster other)

  delete_organization-IsMember :
      (id : String)
      → IsMember env ctx ns w ⊎ (view (delete_organization env ctx id w).1.cluster ≡ view w.cluster)
  delete_organization-IsMember id = elim (Bool-cases (id == ns)) [
    | inr other ↦ inr (delete_organization-isolated id (λ e. ground (arith, eq_iff id ns)))
    | inl same ↦ elim (delete_organization-owner env ctx id w) [
      | inl owner ↦ inl (
          HasRole-IsMember env ctx ns "owner" w
            (subst (λ i. HasRole env ctx i "owner" w) ((eq_iff id ns).0 same) owner))
      | inr (_, kept) ↦ inr (ap view kept)
    ]
  ]

  wrapped :
      {A B : Type 0} (m : Action K A) (f : A → B)
      → view (m w).1.cluster ≡ view w.cluster
      → view ((m >>= (λ r. pure (f r))) w).1.cluster ≡ view w.cluster
  wrapped m f = subst (λ v. view v.cluster ≡ view w.cluster) (sym (state-wrap m f w))

  -- A call changes nothing that a view of a namespace shows, unless the caller is a member of its
  -- organization, or the database draws the namespace's name for a new organization.
  pub run_organization_call-isolated :
      (call : OrganizationCall)
      → env.pg.gen_random_uuid w.db.drawn ≢ ns
      → IsMember env ctx ns w
        ⊎ (view (run_organization_call env ctx call w).1.cluster ≡ view w.cluster)
  unfolding run_organization_call has_scope
  run_organization_call-isolated list fresh =
      inr (ap view (run_organization_call-reads env ctx list w refl).1)
  run_organization_call-isolated (get id) fresh =
      inr (ap view (run_organization_call-reads env ctx (get id) w refl).1)
  run_organization_call-isolated (members id) fresh =
      inr (ap view (run_organization_call-reads env ctx (members id) w refl).1)
  run_organization_call-isolated (create req) fresh =
      inr (wrapped (create_organization env ctx req) _ (create_organization-isolated req fresh))
  run_organization_call-isolated (update req) fresh = inr (
      wrapped (update_organization env ctx req) _
        (ap view (update_organization-cluster env ctx req w)))
  run_organization_call-isolated (delete id) fresh = elim (delete_organization-IsMember id) [
    | inl member ↦ inl member
    | inr kept ↦ inr (wrapped (delete_organization env ctx id) _ kept)
  ]
