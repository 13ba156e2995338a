-- ===== src/Invariant/OrgRows.antt =====
-- The rows of one organization, across the calls of others.
use build_api.Common.{
  ℕ, String, ◌==◌, eq_iff, eq_false, ◌≡◌, ◌≢◌, refl, ap, Bool, false, not, List, [], ◌∷◌, ◌++◌, map,
  ok, arith, Bool-cases, Result-cases, Option-cases, inl, inr,
}
use mathlib.Core.Bool.{cond}
use build_api.Common.Lists.{where_rows}
use build_api.World.Tables.{Db, OrgRow, MemberRow}
use build_api.World.External.{Postgres}
use build_api.Organizations.Sql.{insert_org, insert_owner, delete_org}
use build_api.Organizations.Update.{Column, update_org, assign_at, placeholder, bind_clauses}
use build_api.Invariant.Slugs.{assign_at-id}

-- The organization's row and its memberships are the same.
abbrev pub SameOrg : String → Db → Db → Type 0
SameOrg oid a b =
    (where_rows (λ o. o.id == oid) b.organizations ≡ where_rows (λ o. o.id == oid) a.organizations)
    × (where_rows (λ m. m.organization_id == oid) b.members
        ≡ where_rows (λ m. m.organization_id == oid) a.members)

module _ {A : Type 0} (column : A → String) (oid : String) where
  abbrev of_org : A → Bool
  of_org x = column x == oid

  where_rows-snoc :
      (rows : List A) (a : A)
      → (column a == oid) ≡ false
      → where_rows of_org (rows ++ a ∷ []) ≡ where_rows of_org rows
  where_rows-snoc [] a h = rw h refl
  where_rows-snoc (x ∷ rows) a h = ground (arith, where_rows-snoc rows a h)

  where_rows-others :
      (other : String) (rows : List A)
      → other ≢ oid
      → where_rows of_org (where_rows (λ x. not (column x == other)) rows) ≡ where_rows of_org rows
  where_rows-others other [] h = refl
  where_rows-others other (x ∷ rows) h =
      ground (arith, eq_iff (column x) other, eq_iff (column x) oid, where_rows-others other rows h)

where_rows-assign_at :
    (oid other : String) (bound : List (Column × String)) (rows : List OrgRow)
    → other ≢ oid
    → where_rows (λ o. o.id == oid) (map (assign_at other bound) rows)
      ≡ where_rows (λ o. o.id == oid) rows
where_rows-assign_at oid other bound [] h = refl
where_rows-assign_at oid other bound (o ∷ rows) h = elim (Bool-cases (o.id == other)) [
  | inr elsewhere ↦ rw elsewhere (
      ap (λ rest. cond (o.id == oid) (o ∷ rest) rest) (where_rows-assign_at oid other bound rows h))
  | inl here ↦ ground (
    arith,
    eq_iff o.id other,
    eq_iff o.id oid,
    ap (λ i. i == oid) (assign_at-id other bound o),
    where_rows-assign_at oid other bound rows h,
  )
]

module _ (pg : Postgres) (now : ℕ) (oid other : String) (db : Db) (differs : other ≢ oid) where
  pub delete_org-SameOrg :
      (id : String) → pg.uuid_in id ≡ ok other → SameOrg oid db (delete_org pg now id db).1
  unfolding delete_org
  delete_org-SameOrg id known = ground (
    arith,
    where_rows-others (λ (o : OrgRow). o.id) oid other db.organizations differs,
    where_rows-others (λ (m : MemberRow). m.organization_id) oid other db.members differs,
  )

  pub insert_owner-SameOrg :
      (user_id id : String)
      → pg.uuid_in id ≡ ok other
      → SameOrg oid db (insert_owner pg now user_id id db).1
  unfolding insert_owner
  insert_owner-SameOrg user_id id known = elim (Result-cases (pg.uuid_in user_id)) [
    | inr (e, bad) ↦ ground arith
    | inl (uid, user) ↦
        let row : MemberRow = record {
          user_id = uid;
          organization_id = other;
          role = "owner";
          joined_at = now;
        } in
        ground (
          arith,
          where_rows-snoc (λ (m : MemberRow). m.organization_id) oid db.members row
              (eq_false other oid differs),
        )
  ]

  pub update_org-SameOrg :
      (clauses : List (Column × ℕ)) (id : String) (args : List String)
      → pg.uuid_in id ≡ ok other
      → SameOrg oid db (update_org pg clauses (id ∷ args) db).1
  unfolding update_org placeholder
  update_org-SameOrg clauses id args known =
      elim (Option-cases (bind_clauses (id ∷ args) clauses)) [
        | inl unbound ↦ ground arith
        | inr (bound, found) ↦
            ground (arith, where_rows-assign_at oid other bound db.organizations differs)
      ]

pub insert_org-SameOrg :
    (pg : Postgres) (now : ℕ) (oid name slug plan : String) (db : Db)
    → pg.gen_random_uuid db.drawn ≢ oid
    → SameOrg oid db (insert_org pg now name slug plan db).1
unfolding insert_org
insert_org-SameOrg pg now oid name slug plan db differs =
    let row : OrgRow = record {
      id = pg.gen_random_uuid db.drawn;
      name = name;
      slug = slug;
      plan = plan;
      created_at = now;
    } in
    ground (
      arith,
      where_rows-snoc (λ (o : OrgRow). o.id) oid db.organizations row
          (eq_false (pg.gen_random_uuid db.drawn) oid differs),
    )
