-- ===== src/Organizations/Service/Atomic.antt =====
-- `CreateOrganization` as a transaction.
use build_api.Common.{
  ℕ, suc, String, ◌==◌, eq_refl, ◌≡◌, refl, ap, ◌⊎◌, inl, inr, true, false, none, [], ◌∷◌, ◌++◌,
  Result, ok, err, arith, Result-cases, Bool-cases,
}
use build_api.Common.Lists.{any_row, where_rows-undo, where_rows-all}
use build_api.Status.{Status}
use build_api.Text.{trim_space, to_lower}
use build_api.Api.OrganizationMessages.{Organization, CreateOrganizationRequest}
use build_api.World.Tables.{MemberRow, OrgRow}
use build_api.World.External.{Environment}
use build_api.World.Effect.{World}
use build_api.Auth.Context.{Context, user_id_from_context}
use build_api.Auth.Service.{not_authenticated}
use build_api.Cluster.{ensure_org_namespace, count_builders}
use build_api.Organizations.Slug.{matches_slug, is_plan}
use build_api.Organizations.Sql.{insert_org, insert_owner, delete_org, select_org_created}
use build_api.Organizations.Service.{
  create_organization, store_organization, plan_or_starter, invalid, bad_slug, bad_plan,
  or_roll_back, count_builders_in_namespace,
}

module _ {K Q : Type 0} (env : Environment K Q) (w : World K) where
  abbrev pub new_id : String
  new_id = env.pg.gen_random_uuid w.db.drawn

  abbrev pub org_row : String → String → String → OrgRow
  org_row name slug plan = record {
    id = new_id;
    name = name;
    slug = slug;
    plan = plan;
    created_at = w.db_now;
  }

  abbrev pub owner_row : String → MemberRow
  owner_row uid = record {
    user_id = uid;
    organization_id = new_id;
    role = "owner";
    joined_at = w.db_now;
  }

module _ {K Q : Type 0} (env : Environment K Q) (user_id name slug plan : String) (w : World K)
    (calm : (n : ℕ) → env.pg.outage n ≡ none) where
  module _ (canonical : env.pg.uuid_in (new_id env w) ≡ ok (new_id env w))
      (new_org : any_row (λ o. o.id == new_id env w) w.db.organizations ≡ false)
      (no_members : any_row (λ m. m.organization_id == new_id env w) w.db.members ≡ false) where
    -- Where a statement or the cluster fails after the organization was inserted, its row and its
    -- owner's are gone again.
    pub store_organization-fails :
        (s : Status)
        → (store_organization env user_id name slug plan w).0 ≡ err s
        → ((store_organization env user_id name slug plan w).1.db.organizations
            ≡ w.db.organizations)
          × ((store_organization env user_id name slug plan w).1.db.members ≡ w.db.members)
    unfolding store_organization or_roll_back insert_org insert_owner delete_org
        ensure_org_namespace count_builders_in_namespace count_builders
    store_organization-fails s failed = elim (Result-cases (env.pg.uuid_in user_id)) [
      | inl (uid, user) ↦ (
        ground (
          arith,
          calm w.step,
          calm (suc w.step),
          calm (suc (suc w.step)),
          where_rows-undo (λ o. o.id == new_id env w) w.db.organizations
              (org_row env w name slug plan) new_org (eq_refl (new_id env w)),
        ),
        ground (
          arith,
          calm w.step,
          calm (suc w.step),
          calm (suc (suc w.step)),
          where_rows-all (λ m. m.organization_id == new_id env w) w.db.members no_members,
          where_rows-undo (λ m. m.organization_id == new_id env w) w.db.members
              (owner_row env w uid) no_members (eq_refl (new_id env w)),
        ),
      )
      | inr (e, bad) ↦ (
        ground (
          arith,
          calm w.step,
          calm (suc w.step),
          calm (suc (suc w.step)),
          where_rows-undo (λ o. o.id == new_id env w) w.db.organizations
              (org_row env w name slug plan) new_org (eq_refl (new_id env w)),
        ),
        ground (
          arith,
          calm w.step,
          calm (suc w.step),
          calm (suc (suc w.step)),
          where_rows-all (λ m. m.organization_id == new_id env w) w.db.members no_members,
        ),
      )
    ]

    -- Where it succeeds, the two rows are added.
    pub store_organization-succeeds :
        (o : Organization)
        → (store_organization env user_id name slug plan w).0 ≡ ok o
        → (uid : String) × (env.pg.uuid_in user_id ≡ ok uid)
          × ((store_organization env user_id name slug plan w).1.db.organizations
              ≡ w.db.organizations ++ org_row env w name slug plan ∷ [])
          × ((store_organization env user_id name slug plan w).1.db.members
              ≡ w.db.members ++ owner_row env w uid ∷ [])
          × (o.id ≡ new_id env w)
    unfolding store_organization or_roll_back insert_org insert_owner delete_org select_org_created
        ensure_org_namespace count_builders_in_namespace count_builders
    store_organization-succeeds o done = elim (Result-cases (env.pg.uuid_in user_id)) [
      | inl (uid, user) ↦ (
        uid,
        user,
        ground (arith, calm w.step, calm (suc w.step), calm (suc (suc w.step))),
        ground (arith, calm w.step, calm (suc w.step), calm (suc (suc w.step))),
        ground (arith, calm w.step, calm (suc w.step), calm (suc (suc w.step))),
      )
      | inr (e, bad) ↦
          absurd (ground (arith, calm w.step, calm (suc w.step), calm (suc (suc w.step))))
    ]

module _ {K Q : Type 0} (env : Environment K Q) (ctx : Context) (req : CreateOrganizationRequest)
    (w : World K) where
  abbrev slug_of : String
  slug_of = to_lower env.lower_beyond (trim_space req.slug)

  abbrev plan_of : String
  plan_of = plan_or_starter (trim_space req.plan)

  -- Either the checks refuse the request, or the organization is stored with a slug and a plan that
  -- passed them.
  pub create_organization-cases :
      ((s : Status) × (create_organization env ctx req w ≡ (err s, w)))
      ⊎ ((create_organization env ctx req w
            ≡ store_organization env
                (user_id_from_context ctx)
                (trim_space req.name)
                slug_of
                plan_of
                w)
          × (matches_slug slug_of ≡ true)
          × (is_plan plan_of ≡ true)
          × ((trim_space req.name == "") ≡ false))
  unfolding create_organization
  create_organization-cases = elim (Bool-cases (user_id_from_context ctx == "")) [
    | inl a ↦ inl (not_authenticated, rw a)
    | inr a ↦ elim (Bool-cases (trim_space req.name == "")) [
      | inl b ↦ inl (invalid "name is required", rw (a, b))
      | inr b ↦ elim (Bool-cases (trim_space req.slug == "")) [
        | inl c ↦ inl (invalid "slug is required", rw (a, b, c))
        | inr c ↦ elim (Bool-cases (matches_slug slug_of)) [
          | inr d ↦ inl (bad_slug, rw (a, b, c, d))
          | inl d ↦ elim (Bool-cases (is_plan plan_of)) [
            | inr e ↦ inl (bad_plan, rw (a, b, c, d, e))
            | inl e ↦ inr (rw (a, b, c, d, e), d, e, b)
          ]
        ]
      ]
    ]
  ]

  module _ (calm : (n : ℕ) → env.pg.outage n ≡ none)
      (canonical : env.pg.uuid_in (env.pg.gen_random_uuid w.db.drawn)
        ≡ ok (env.pg.gen_random_uuid w.db.drawn))
      (new_org : any_row (λ o. o.id == env.pg.gen_random_uuid w.db.drawn) w.db.organizations
        ≡ false)
      (no_members : any_row
          (λ m. m.organization_id == env.pg.gen_random_uuid w.db.drawn)
          w.db.members
        ≡ false) where
    -- Without an outage, and where the database draws a canonical identifier that no row has yet, a
    -- request that fails leaves the organizations and the memberships as they were, also where it
    -- fails after the organization was inserted.
    pub create_organization-fails :
        (s : Status)
        → (create_organization env ctx req w).0 ≡ err s
        → ((create_organization env ctx req w).1.db.organizations ≡ w.db.organizations)
          × ((create_organization env ctx req w).1.db.members ≡ w.db.members)
    create_organization-fails s failed = elim create_organization-cases [
      | inl (refusal, refused) ↦ rw refused (refl, refl)
      | inr (stored, _, _, _) ↦ rw stored (
          store_organization-fails env (user_id_from_context ctx) (trim_space req.name) slug_of
            plan_of w calm canonical new_org no_members s (rw stored at failed))
    ]

    -- Without an outage, and where the database draws a canonical identifier that no row has yet, a
    -- request that succeeds adds one organization, with the trimmed name, a slug that passed the slug test and one of the three
    -- plans, and one membership, of the caller as its owner.
    pub create_organization-succeeds :
        (o : Organization)
        → (create_organization env ctx req w).0 ≡ ok o
        → (uid : String) × (env.pg.uuid_in (user_id_from_context ctx) ≡ ok uid)
          × ((create_organization env ctx req w).1.db.organizations
              ≡ w.db.organizations ++ org_row env w (trim_space req.name) slug_of plan_of ∷ [])
          × ((create_organization env ctx req w).1.db.members
              ≡ w.db.members ++ owner_row env w uid ∷ [])
          × (matches_slug slug_of ≡ true)
          × (is_plan plan_of ≡ true)
    create_organization-succeeds o done = elim create_organization-cases [
      | inl (refusal, refused) ↦
          absurd (cc (ap (λ (r : Result Status Organization × World K). r.0) refused))
      | inr (stored, slug_ok, plan_ok, _) ↦
          let (uid, user, orgs, members, _) =
            store_organization-succeeds env (user_id_from_context ctx) (trim_space req.name) slug_of
              plan_of w calm canonical new_org no_members o (rw stored at done) in
          (uid, user, rw stored orgs, rw stored members, slug_ok, plan_ok)
    ]
