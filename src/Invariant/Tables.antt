-- ===== src/Invariant/Tables.antt =====
-- Well-formed tables, and what it takes to change one of them.
use build_api.Common.{ℕ, String, ◌==◌, eq_iff, Bool, true, ◌≡◌, List, arith}
use build_api.Common.Lists.{any_row, All, All-of}
use build_api.World.Tables.{Db, UserRow, OrgRow, MemberRow, KeyRow}
use build_api.World.Sql.{is_membership}
use build_api.Invariant.Rows.{Apart, same_by}

abbrev pub same_pair : MemberRow → MemberRow → Bool
same_pair m n = is_membership m.user_id m.organization_id n

pub same_pair_sym : (u v : MemberRow) → same_pair u v ≡ true → same_pair v u ≡ true
same_pair_sym u v h = ground (
  arith,
  eq_iff u.user_id v.user_id,
  eq_iff v.user_id u.user_id,
  eq_iff u.organization_id v.organization_id,
  eq_iff v.organization_id u.organization_id,
)

abbrev pub has_user : List UserRow → String → Bool
has_user users uid = any_row (λ u. u.id == uid) users

abbrev pub has_org : List OrgRow → String → Bool
has_org orgs oid = any_row (λ o. o.id == oid) orgs

-- The primary keys and unique indexes of the four tables, and the references between them.
pub record WellFormed (db : Db) : Type 0 where
  pub user_ids : Apart (same_by (λ u. u.id)) db.users
  pub emails : Apart (same_by (λ u. u.email)) db.users
  pub org_ids : Apart (same_by (λ o. o.id)) db.organizations
  pub slugs : Apart (same_by (λ o. o.slug)) db.organizations
  pub key_ids : Apart (same_by (λ k. k.id)) db.keys
  pub hashes : Apart (same_by (λ k. k.key_hash)) db.keys
  pub pairs : Apart same_pair db.members
  pub member_users : All (λ m. has_user db.users m.user_id ≡ true) db.members
  pub member_orgs : All (λ m. has_org db.organizations m.organization_id ≡ true) db.members
  pub key_users : All (λ k. has_user db.users k.user_id ≡ true) db.keys

module _ (db : Db) (n : ℕ) (h : WellFormed db) where
  pub with_users :
      (users : List UserRow)
      → Apart (same_by (λ u. u.id)) users
      → Apart (same_by (λ u. u.email)) users
      → ((uid : String) → has_user db.users uid ≡ true → has_user users uid ≡ true)
      → WellFormed (record db { users = users; drawn = n })
  with_users users ids emails known = record {
    user_ids = ids;
    emails = emails;
    org_ids = h.org_ids;
    slugs = h.slugs;
    key_ids = h.key_ids;
    hashes = h.hashes;
    pairs = h.pairs;
    member_users = All-of (λ m. known m.user_id) db.members h.member_users;
    member_orgs = h.member_orgs;
    key_users = All-of (λ k. known k.user_id) db.keys h.key_users;
  }

  pub with_keys :
      (keys : List KeyRow)
      → Apart (same_by (λ k. k.id)) keys
      → Apart (same_by (λ k. k.key_hash)) keys
      → All (λ k. has_user db.users k.user_id ≡ true) keys
      → WellFormed (record db { keys = keys; drawn = n })
  with_keys keys ids hashes known = record {
    user_ids = h.user_ids;
    emails = h.emails;
    org_ids = h.org_ids;
    slugs = h.slugs;
    key_ids = ids;
    hashes = hashes;
    pairs = h.pairs;
    member_users = h.member_users;
    member_orgs = h.member_orgs;
    key_users = known;
  }

  pub with_orgs_members :
      (orgs : List OrgRow) (members : List MemberRow)
      → Apart (same_by (λ o. o.id)) orgs
      → Apart (same_by (λ o. o.slug)) orgs
      → Apart same_pair members
      → All (λ m. has_user db.users m.user_id ≡ true) members
      → All (λ m. has_org orgs m.organization_id ≡ true) members
      → WellFormed (record db { organizations = orgs; members = members; drawn = n })
  with_orgs_members orgs members ids slugs pairs users known = record {
    user_ids = h.user_ids;
    emails = h.emails;
    org_ids = ids;
    slugs = slugs;
    key_ids = h.key_ids;
    hashes = h.hashes;
    pairs = pairs;
    member_users = users;
    member_orgs = known;
    key_users = h.key_users;
  }

  pub with_orgs :
      (orgs : List OrgRow)
      → Apart (same_by (λ o. o.id)) orgs
      → Apart (same_by (λ o. o.slug)) orgs
      → ((oid : String) → has_org db.organizations oid ≡ true → has_org orgs oid ≡ true)
      → WellFormed (record db { organizations = orgs; drawn = n })
  with_orgs orgs ids slugs known =
      with_orgs_members orgs db.members ids slugs h.pairs h.member_users
        (All-of (λ m. known m.organization_id) db.members h.member_orgs)
