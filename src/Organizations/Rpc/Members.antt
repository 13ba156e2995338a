-- ===== src/Organizations/Rpc/Members.antt =====
-- Whom the organization service answers about an organization.
use build_api.Common.{
  String, ◌==◌, eq_iff, ◌≡◌, refl, ◌∙◌, subst, Bool, false, Option, some, none, List, [], ◌∷◌, ◌++◌,
  ok, arith, Result-cases, Bool-cases, inl, inr,
}
use mathlib.Core.Option.{some-injective}
use build_api.Common.Lists.{any_row, where_rows}
use build_api.Text.{trim_space}
use build_api.World.Tables.{OrgRow, MemberRow}
use build_api.World.External.{Environment}
use build_api.World.Effect.{World, Action, ◌>>=◌, pure}
use build_api.World.Sql.{is_membership, select_is_member}
use build_api.Auth.Context.{Context, user_id_from_context}
use build_api.Api.OrganizationMessages.{Organization, OrganizationMember, UpdateOrganizationRequest}
use build_api.Membership.Rows.{IsMember}
use build_api.Organizations.Sql.{join_orgs, repeat_for, select_org, select_role}
use build_api.Organizations.Service.{
  get_organization, update_organization, delete_organization, list_organization_members,
}
use build_api.Organizations.Service.Deletion.{delete_organization-ok}
use build_api.Organizations.Service.Roles.{select_role-HasRole, select_role-frame}
use build_api.Organizations.Rpc.{
  OrganizationCall, OrganizationReply, list, get, members, create, update, delete,
  run_organization_call,
}
use build_api.Organizations.Rpc.Isolation.{HasRole-IsMember}

-- The organization that a call is about, none for a listing and a creation.
abbrev pub organization_of : OrganizationCall → Option String
organization_of list = none
organization_of (create req) = none
organization_of (get id) = some id
organization_of (members id) = some (trim_space id)
organization_of (update req) = some req.id
organization_of (delete id) = some id

where_rows-repeat_for :
    (p : OrgRow → Bool) (o : OrgRow) (ms : List MemberRow) (rest : List OrgRow)
    → p o ≡ false
    → where_rows p (repeat_for o ms ++ rest) ≡ where_rows p rest
where_rows-repeat_for p o [] rest h = refl
where_rows-repeat_for p o (m ∷ ms) rest h = rw h (where_rows-repeat_for p o ms rest h)

where_rows-nobody :
    (p : MemberRow → Bool) (rows : List MemberRow) → any_row p rows ≡ false → where_rows p rows ≡ []
where_rows-nobody p [] h = refl
where_rows-nobody p (m ∷ rows) h = ground (arith, where_rows-nobody p rows)

-- The join has no row of an organization that the user is not a member of.
join_orgs-outsider :
    (uid oid : String) (ms : List MemberRow) (orgs : List OrgRow)
    → any_row (is_membership uid oid) ms ≡ false
    → where_rows (λ o. o.id == oid) (join_orgs uid ms orgs) ≡ []
join_orgs-outsider uid oid ms [] h = refl
join_orgs-outsider uid oid ms (o ∷ orgs) h = elim (Bool-cases (o.id == oid)) [
  | inr other ↦
      where_rows-repeat_for (λ r. r.id == oid) o (where_rows (is_membership uid o.id) ms)
        (join_orgs uid ms orgs) other
      ∙ join_orgs-outsider uid oid ms orgs h
  | inl same ↦
      rw ((eq_iff o.id oid).0 same, where_rows-nobody (is_membership uid oid) ms h)
        (join_orgs-outsider uid oid ms orgs h)
]

module _ {K Q : Type 0} (env : Environment K Q) (ctx : Context) (w : World K) where
  get_organization-IsMember :
      (id : String) (o : Organization)
      → (get_organization env ctx id w).0 ≡ ok o
      → IsMember env ctx id w
  unfolding get_organization select_org
  get_organization-IsMember id o done = elim (Result-cases (env.pg.uuid_in id)) [
    | inr (e, bad) ↦ absurd (ground arith)
    | inl (oid, org) ↦ elim (Result-cases (env.pg.uuid_in (user_id_from_context ctx))) [
      | inr (e, bad) ↦ absurd (ground arith)
      | inl (uid, user) ↦ elim (Bool-cases (any_row (is_membership uid oid) w.db.members)) [
        | inl member ↦ (uid, oid, user, org, member)
        | inr outsider ↦
            absurd
              (ground (arith, join_orgs-outsider uid oid w.db.members w.db.organizations outsider))
      ]
    ]
  ]

  list_organization_members-IsMember :
      (id : String) (ms : List OrganizationMember)
      → (list_organization_members env ctx id w).0 ≡ ok ms
      → IsMember env ctx (trim_space id) w
  unfolding list_organization_members select_is_member
  list_organization_members-IsMember id ms done =
      elim (Result-cases (env.pg.uuid_in (user_id_from_context ctx))) [
        | inr (e, bad) ↦ absurd (ground arith)
        | inl (uid, user) ↦ elim (Result-cases (env.pg.uuid_in (trim_space id))) [
          | inr (e, bad) ↦ absurd (ground arith)
          | inl (oid, org) ↦ (uid, oid, user, org, ground arith)
        ]
      ]

  update_organization-IsMember :
      (req : UpdateOrganizationRequest) (o : Organization)
      → (update_organization env ctx req w).0 ≡ ok o
      → IsMember env ctx req.id w
  unfolding update_organization
  update_organization-IsMember req o done =
      let same = select_role-frame env (user_id_from_context ctx) req.id w.db_now w.db in
      elim (Result-cases (select_role env.pg w.db_now (user_id_from_context ctx) req.id w.db).0) [
        | inr (e, missing) ↦ absurd (ground (arith, same))
        | inl (role, found) ↦
            HasRole-IsMember env ctx req.id role w
              (select_role-HasRole env ctx req.id role w.db_now w found)
      ]

  answered-wrap :
      {A B : Type 0} (m : Action K A) (f : A → B) (b : B)
      → ((m >>= (λ r. pure (f r))) w).0 ≡ ok b
      → (a : A) × ((m w).0 ≡ ok a)
  answered-wrap m f b done = elim (Result-cases (m w).0) [
    | inl (a, good) ↦ (a, good)
    | inr (s, bad) ↦ absurd (ground arith)
  ]

  named :
      {m n : String}
      → ◌≡◌ {A = Option String} (some m) (some n)
      → IsMember env ctx m w
      → IsMember env ctx n w
  named {m} {n} names = subst (λ i. IsMember env ctx i w) (some-injective m n names)

  -- A call about an organization that is answered without an error comes from one of its members.
  pub run_organization_call-IsMember :
      (c : OrganizationCall) (org_id : String) (r : OrganizationReply)
      → organization_of c ≡ some org_id
      → (run_organization_call env ctx c w).0 ≡ ok r
      → IsMember env ctx org_id w
  unfolding run_organization_call
  run_organization_call-IsMember list org_id r names done = cc
  run_organization_call-IsMember (create req) org_id r names done = cc
  run_organization_call-IsMember (get id) org_id r names done =
      let (o, found) = answered-wrap (get_organization env ctx id) _ r done in
      named names (get_organization-IsMember id o found)
  run_organization_call-IsMember (members id) org_id r names done =
      let (ms, found) = answered-wrap (list_organization_members env ctx id) _ r done in
      named names (list_organization_members-IsMember id ms found)
  run_organization_call-IsMember (update req) org_id r names done =
      let (o, found) = answered-wrap (update_organization env ctx req) _ r done in
      named names (update_organization-IsMember req o found)
  run_organization_call-IsMember (delete id) org_id r names done =
      let (_, gone) = answered-wrap (delete_organization env ctx id) _ r done in
      named names
        (HasRole-IsMember env ctx id "owner" w (delete_organization-ok env ctx id w gone).0)
