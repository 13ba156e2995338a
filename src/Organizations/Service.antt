-- ===== src/Organizations/Service.antt =====
-- The handlers of internal/organizations/service.go. Log lines are left out.
pub mod Atomic
pub mod Roles
pub mod Deletion
pub mod Listing
pub mod Updating
use build_api.Common.{
  ℕ, zero, suc, ◌=?◌, String, ◌==◌, Bool, true, false, not, ◌&&◌, ◌||◌, Option, none, some, List,
  [], ◌∷◌, Result, ok, err, if◌then◌else◌, map,
}
use build_api.Common.Int.{ℤ, pos, to_int32}
use build_api.Status.{
  Status, status_error, status_errorf, invalid_argument, not_found, already_exists,
  permission_denied, internal,
}
use build_api.Text.{trim_space, to_lower}
use build_api.Api.OrganizationMessages.{
  Organization, CreateOrganizationRequest, UpdateOrganizationRequest, OrganizationMember,
}
use build_api.World.Tables.{
  Db, OrgRow, MemberRow, UserRow, DbError, no_rows, pg_error, driver_error, db_error_text,
}
use build_api.World.External.{Environment, KubeError}
use build_api.World.Effect.{
  World, Action, ◌>>=◌, ◌>>◌, pure, fail, fail_if, or_fail, branch, run_sql, gets,
}
use build_api.World.Sql.{select_is_member, unique_violation}
use build_api.Auth.Context.{Context, user_id_from_context}
use build_api.Auth.Service.{not_authenticated}
use build_api.Cluster.{ensure_org_namespace, delete_org_namespace, count_builders}
use build_api.Organizations.Slug.{matches_slug, is_plan}
use build_api.Organizations.Sql.{
  select_orgs, select_org, insert_org, insert_owner, delete_org, select_org_created, select_role,
  select_members,
}
use build_api.Organizations.Update.{Assembly, assemble, update_org}

abbrev invalid : String → Status
invalid = status_error invalid_argument

abbrev bad_slug : Status
bad_slug = invalid "slug must be lowercase letters, numbers, and hyphens only"

abbrev bad_plan : Status
bad_plan = invalid "plan must be one of: starter, pro, enterprise"

abbrev pub org_missing : Status
org_missing = status_error not_found "organization not found"

-- `isUniqueViolation` of this package
unfoldable pub is_unique_violation : DbError → Bool
is_unique_violation no_rows = false
is_unique_violation (pg_error sqlstate text) = sqlstate == unique_violation
is_unique_violation (driver_error text) = false

abbrev internal_error : String → DbError → Status
internal_error label e = status_errorf internal label (db_error_text e)

abbrev missing_or_internal : String → DbError → Status
missing_or_internal label no_rows = org_missing
missing_or_internal label (pg_error c t) = status_errorf internal label t
missing_or_internal label (driver_error t) = status_errorf internal label t

abbrev taken_or_internal : String → DbError → Status
taken_or_internal label e =
    if is_unique_violation e
    then status_error already_exists "slug already in use"
    else internal_error label e

abbrev zero_or : Result DbError ℕ → ℕ
zero_or (ok n) = n
zero_or (err e) = 0

abbrev count_or_zero : Result KubeError ℤ → ℤ
count_or_zero (ok n) = n
count_or_zero (err e) = pos 0

abbrev unless_error : Option KubeError → Result KubeError (Unit {0})
unless_error none = ok tt
unless_error (some e) = err e

abbrev pub proto_org : (ℕ → ℕ) → OrgRow → ℕ → ℤ → Organization
proto_org epoch o members builders = record {
  id = o.id;
  name = o.name;
  slug = o.slug;
  plan = o.plan;
  created_at = epoch o.created_at;
  builder_count = builders;
  total_minutes = pos 0;
  monthly_minutes = pos 0;
  member_count = to_int32 members;
}

abbrev proto_member : (ℕ → ℕ) → MemberRow × UserRow → OrganizationMember
proto_member epoch (m, u) = record {
  user_id = u.id;
  email = u.email;
  name = u.name;
  role = m.role;
  joined_at = epoch m.joined_at;
}

abbrev pub plan_or_starter : String → String
plan_or_starter plan = if plan == "" then "starter" else plan

module _ {K Q : Type 0} (env : Environment K Q) where
  -- `countBuildersInNamespace`
  unfoldable pub count_builders_in_namespace : String → Action K ℤ
  count_builders_in_namespace org_id = do n ← count_builders env org_id; pure (count_or_zero n)

  -- The loop over the rows of `ListOrganizations`.
  unfoldable pub with_builders : List (OrgRow × ℕ) → Action K (List Organization)
  with_builders [] = pure []
  with_builders ((o, members) ∷ rows) =
      let rest = with_builders rows in
      (do
        bc ← count_builders_in_namespace o.id
        orgs ← rest
        pure (proto_org env.pg.epoch o members bc ∷ orgs))

  -- `ListOrganizations`
  unfoldable pub list_organizations : Context → Action K (List Organization)
  list_organizations ctx = do
    let user_id = user_id_from_context ctx
    fail_if (user_id == "") not_authenticated
    now ← gets (λ w. w.db_now)
    found ← run_sql env (select_orgs env.pg now user_id)
    rows ← or_fail found (internal_error "list organizations")
    with_builders rows

  -- `GetOrganization`
  unfoldable pub get_organization : Context → String → Action K Organization
  get_organization ctx id = do
    let user_id = user_id_from_context ctx
    fail_if (user_id == "") not_authenticated
    fail_if (id == "") (invalid "id is required")
    now ← gets (λ w. w.db_now)
    found ← run_sql env (select_org env.pg now id user_id)
    row ← or_fail found (missing_or_internal "get organization")
    bc ← count_builders_in_namespace row.0.id
    pure (proto_org env.pg.epoch row.0 row.1 bc)

  -- A step of `CreateOrganization` after the row was inserted: an error deletes the row, without
  -- looking at the answer, and is returned.
  unfoldable pub or_roll_back :
      {E : Type 0} → String → Result E (Unit {0}) → (E → Status) → Action K (Unit {0})
  or_roll_back org_id r status = elim r [
    | ok _ ↦ pure tt
    | err e ↦ (do
      now ← gets (λ w. w.db_now)
      run_sql env (delete_org env.pg now org_id)
      fail (status e))
  ]

  -- `CreateOrganization` from its first statement on.
  unfoldable pub store_organization : String → String → String → String → Action K Organization
  store_organization user_id name slug plan = do
    now ← gets (λ w. w.db_now)
    inserted ← run_sql env (insert_org env.pg now name slug plan)
    org_id ← or_fail inserted (taken_or_internal "create organization")
    owner ← run_sql env (insert_owner env.pg now user_id org_id)
    or_roll_back org_id owner (internal_error "add owner membership")
    ensured ← ensure_org_namespace env org_id
    or_roll_back org_id (unless_error ensured)
        (λ e. status_errorf internal "create organization namespace" e.text)
    created ← run_sql env (select_org_created env.pg now org_id)
    bc ← count_builders_in_namespace org_id
    pure (record {
      id = org_id;
      name = name;
      slug = slug;
      plan = plan;
      created_at = zero_or created;
      builder_count = bc;
      total_minutes = pos 0;
      monthly_minutes = pos 0;
      member_count = pos 1;
    })

  -- `CreateOrganization`
  unfoldable pub create_organization : Context → CreateOrganizationRequest → Action K Organization
  create_organization ctx req = do
    let user_id = user_id_from_context ctx
    fail_if (user_id == "") not_authenticated
    fail_if (trim_space req.name == "") (invalid "name is required")
    fail_if (trim_space req.slug == "") (invalid "slug is required")
    let slug = to_lower env.lower_beyond (trim_space req.slug)
    fail_if (not (matches_slug slug)) bad_slug
    let plan = plan_or_starter (trim_space req.plan)
    fail_if (not (is_plan plan)) bad_plan
    store_organization user_id (trim_space req.name) slug plan

  -- `UpdateOrganization` after the check of the role.
  unfoldable pub apply_update : Context → UpdateOrganizationRequest → Action K Organization
  apply_update ctx req =
      branch (req.name == "" && req.slug == "" && req.plan == "") (get_organization ctx req.id) (do
        fail_if
            (not (req.slug == "")
              && not (matches_slug (to_lower env.lower_beyond (trim_space req.slug))))
            bad_slug
        fail_if (not (req.plan == "") && not (is_plan req.plan)) bad_plan
        let a = assemble env.lower_beyond req
        updated ← run_sql env (update_org env.pg a.set_clause (req.id ∷ a.args))
        or_fail updated (taken_or_internal "update organization")
        get_organization ctx req.id)

  -- `UpdateOrganization`
  unfoldable pub update_organization : Context → UpdateOrganizationRequest → Action K Organization
  update_organization ctx req = do
    let user_id = user_id_from_context ctx
    fail_if (user_id == "") not_authenticated
    fail_if (req.id == "") (invalid "id is required")
    now ← gets (λ w. w.db_now)
    found ← run_sql env (select_role env.pg now user_id req.id)
    role ← or_fail found (missing_or_internal "check membership")
    fail_if (not (role == "owner") && not (role == "admin"))
        (status_error permission_denied "must be owner or admin to update organization")
    apply_update ctx req

  -- `DeleteOrganization`
  unfoldable pub delete_organization : Context → String → Action K (Unit {0})
  delete_organization ctx id = do
    let user_id = user_id_from_context ctx
    fail_if (user_id == "") not_authenticated
    fail_if (id == "") (invalid "id is required")
    now ← gets (λ w. w.db_now)
    found ← run_sql env (select_role env.pg now user_id id)
    role ← or_fail found (missing_or_internal "check membership")
    fail_if (not (role == "owner"))
        (status_error permission_denied "only the organization owner can delete the organization")
    gone ← delete_org_namespace env id
    or_fail (unless_error gone) (λ e. status_errorf internal "delete organization namespace" e.text)
    deleted ← run_sql env (delete_org env.pg now id)
    affected ← or_fail deleted (internal_error "delete organization")
    fail_if (affected =? 0) org_missing

  -- `ListOrganizationMembers`
  unfoldable pub list_organization_members : Context → String → Action K (List OrganizationMember)
  list_organization_members ctx organization_id = do
    let user_id = user_id_from_context ctx
    fail_if (user_id == "") not_authenticated
    let org_id = trim_space organization_id
    fail_if (org_id == "") (invalid "organization_id is required")
    checked ← run_sql env (select_is_member env.pg user_id org_id)
    member ← or_fail checked (internal_error "check membership")
    fail_if (not member) (status_error permission_denied "not a member of this organization")
    now ← gets (λ w. w.db_now)
    found ← run_sql env (select_members env.pg now org_id)
    rows ← or_fail found (internal_error "list members")
    pure (map (proto_member env.pg.epoch) rows)
