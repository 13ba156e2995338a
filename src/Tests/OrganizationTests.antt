-- ===== src/Tests/OrganizationTests.antt =====
-- Organizations: instances and runs in the small environment.
use build_api.Common.{
  ℕ, String, ◌≡◌, ◌≢◌, ◌⊎◌, ◌↔◌, ◌∷◌, ◌++◌, refl, ap, true, false, some, [], ok, arith, eq_iff, map,
}
use build_api.Common.Int.{pos, to_int32}
use build_api.Text.{trim_space, trim_left, trim_right, is_space, to_lower}
use build_api.Status.{Status, status_errorf, internal}
use build_api.Api.OrganizationMessages.{
  Organization, CreateOrganizationRequest, UpdateOrganizationRequest,
}
use build_api.Common.Lists.{where_rows}
use build_api.World.Effect.{World}
use build_api.World.Tables.{Db}
use build_api.World.External.{Environment}
use build_api.Organizations.Slug.{matches_slug, slug_from, is_slug_char, is_plan}
use build_api.Organizations.Slug.Grammar.{IsSlug, matches_slug_iff}
use build_api.Organizations.Sql.{
  select_role, select_org, insert_org, insert_owner, delete_org, select_org_created,
}
use build_api.Organizations.Update.{update_org, assemble, bind_clauses, assign, placeholder}
use build_api.Organizations.Update.Placeholders.{requested, requested_columns, assemble-requested}
use build_api.Organizations.Service.{
  create_organization, store_organization, or_roll_back, update_organization, apply_update,
  get_organization, count_builders_in_namespace,
}
use build_api.Cluster.{ensure_org_namespace, count_builders}
use build_api.Organizations.Service.Atomic.{
  org_row, owner_row, create_organization-fails, create_organization-succeeds,
}
use build_api.Organizations.Service.Roles.{HasRole, update_organization-role}
use build_api.Organizations.Service.Listing.{is_member_of}
use build_api.Organizations.Service.Updating.{with_requested, update_organization-ok}
use build_api.Tests.Demo.{env, world, db, signed_in, org}

runs : Unit {0}
unfolding trim_space trim_left trim_right is_space to_lower matches_slug slug_from is_slug_char
    is_plan create_organization store_organization or_roll_back insert_org insert_owner delete_org
    select_org_created ensure_org_namespace count_builders_in_namespace count_builders
    update_organization apply_update select_role update_org assemble placeholder bind_clauses assign
    to_int32 get_organization select_org status_errorf
runs = tt

abbrev acme : CreateOrganizationRequest
acme = record { name = " Acme "; slug = "Acme-1"; plan = "" }

-- The cluster refuses every namespace.
abbrev no_namespaces : Environment ℕ String
no_namespaces = record env {
  kube = record env.kube {
    create_namespace = λ ns k.
        (some (record { is_already_exists = false; is_not_found = false; text = "forbidden" }), k);
  };
}

abbrev refusal : Status
refusal = status_errorf internal "create organization namespace" "forbidden"

create_organization-fails_example :
    ((create_organization no_namespaces signed_in acme world).1.db.organizations
      ≡ world.db.organizations)
    × ((create_organization no_namespaces signed_in acme world).1.db.members ≡ world.db.members)
unfolding runs
create_organization-fails_example =
    create_organization-fails no_namespaces signed_in acme world (λ n. refl) refl refl refl refusal
      refl

abbrev acme_org : Organization
acme_org = record {
  id = "id-0";
  name = "Acme";
  slug = "acme-1";
  plan = "starter";
  created_at = 5;
  builder_count = pos 1;
  total_minutes = pos 0;
  monthly_minutes = pos 0;
  member_count = pos 1;
}

create_organization-succeeds_example :
    (uid : String) × (env.pg.uuid_in "ann" ≡ ok uid)
    × ((create_organization env signed_in acme world).1.db.organizations
        ≡ world.db.organizations ++ org_row env world "Acme" "acme-1" "starter" ∷ [])
    × ((create_organization env signed_in acme world).1.db.members
        ≡ world.db.members ++ owner_row env world uid ∷ [])
    × (matches_slug "acme-1" ≡ true)
    × (is_plan "starter" ≡ true)
unfolding runs
create_organization-succeeds_example =
    create_organization-succeeds env signed_in acme world (λ n. refl) refl refl refl acme_org refl

abbrev rename : UpdateOrganizationRequest
rename = record { id = "org"; name = "Other"; slug = ""; plan = "" }

-- The first name in the table of organizations.
abbrev first_name : Db → String
first_name db = elim db.organizations [ [] ↦ "" | o ∷ _ ↦ o.name ]

renamed : first_name (update_organization env signed_in rename world).1.db ≡ "Other"
unfolding runs
renamed = refl

other_name : ◌≢◌ {A = String} "Other" "Org"
other_name = ground (arith, eq_iff "Other" "Org")

update_organization-role_example :
    HasRole env signed_in "org" "owner" world ⊎ HasRole env signed_in "org" "admin" world
unfolding runs
update_organization-role_example =
    update_organization-role env signed_in rename world (λ same. other_name (ap first_name same))

assemble-requested_example :
    (bind_clauses
        ("org" ∷ (assemble env.lower_beyond rename).args)
        (assemble env.lower_beyond rename).set_clause
      ≡ some (requested_columns env.lower_beyond rename))
    × (assign (requested_columns env.lower_beyond rename) org
        ≡ requested env.lower_beyond rename org)
assemble-requested_example = assemble-requested env.lower_beyond rename org

slug_test : matches_slug "a-b1" ≡ true
unfolding runs
slug_test = refl

matches_slug_iff_example : (matches_slug "a-b1" ≡ true) ↔ IsSlug "a-b1"
matches_slug_iff_example = matches_slug_iff "a-b1"

abbrev shown_org : Organization
shown_org = record {
  id = "org";
  name = "Other";
  slug = "org";
  plan = "pro";
  created_at = 2;
  builder_count = pos 1;
  total_minutes = pos 0;
  monthly_minutes = pos 0;
  member_count = pos 1;
}

update_organization-ok_example :
    (HasRole env signed_in "org" "owner" world ⊎ HasRole env signed_in "org" "admin" world)
    × ((oid : String) × (env.pg.uuid_in "org" ≡ ok oid)
        × ((update_organization env signed_in rename world).1.db
            ≡ with_requested env.lower_beyond rename oid world.db))
unfolding runs
update_organization-ok_example = update_organization-ok env signed_in rename world shown_org refl

-- A second organization, of which "ann" is not a member.
abbrev two_orgs : World ℕ
two_orgs = record world {
  db = record db { organizations = record org { id = "else"; slug = "else" } ∷ org ∷ [] };
}

listed_once :
    map (λ o. o.id) (where_rows (is_member_of "ann" two_orgs.db) two_orgs.db.organizations)
    ≡ "org" ∷ []
listed_once = refl
