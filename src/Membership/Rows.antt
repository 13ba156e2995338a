-- ===== src/Membership/Rows.antt =====
-- Who is a member.
use build_api.Common.{String, ◌≡◌, true, ok, arith, Result-cases, inl, inr}
use build_api.Common.Lists.{any_row}
use build_api.World.External.{Environment}
use build_api.World.Effect.{World}
use build_api.World.Sql.{is_membership, select_is_member}
use build_api.Auth.Context.{Context, user_id_from_context}
use build_api.Membership.{ensure_org_member}

module _ {K Q : Type 0} (env : Environment K Q) where
  -- The table has a membership of the request's user in the organization.
  abbrev pub IsMember : Context → String → World K → Type 0
  IsMember ctx namespace w =
      (uid : String) × (oid : String) × (env.pg.uuid_in (user_id_from_context ctx) ≡ ok uid)
      × (env.pg.uuid_in namespace ≡ ok oid)
      × (any_row (is_membership uid oid) w.db.members ≡ true)

  pub ensure_org_member-IsMember :
      (ctx : Context) (namespace : String) (w : World K)
      → (ensure_org_member env ctx namespace w).0 ≡ ok tt
      → IsMember ctx namespace w
  unfolding ensure_org_member select_is_member
  ensure_org_member-IsMember ctx namespace w h =
      elim (Result-cases (env.pg.uuid_in (user_id_from_context ctx))) [
        | inr (e, bad) ↦ absurd (ground arith)
        | inl (uid, user) ↦ elim (Result-cases (env.pg.uuid_in namespace)) [
          | inr (e, bad) ↦ absurd (ground arith)
          | inl (oid, org) ↦ (uid, oid, user, org, ground arith)
        ]
      ]

  -- The check changes no table and nothing in the cluster.
  pub ensure_org_member-frame :
      (ctx : Context) (namespace : String) (w : World K)
      → ((ensure_org_member env ctx namespace w).1.db ≡ w.db)
        × ((ensure_org_member env ctx namespace w).1.cluster ≡ w.cluster)
  unfolding ensure_org_member select_is_member
  ensure_org_member-frame ctx namespace w = ground arith
