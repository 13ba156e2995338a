-- ===== src/Tests/InvariantTests.antt =====
-- A short history: a user registers and creates an organization.
use build_api.Common.{ℕ, String, ◌=?◌, ◌≡◌, refl, map, [], ◌∷◌, if◌then◌else◌}
use build_api.Api.AuthMessages.{RegisterRequest}
use build_api.Api.OrganizationMessages.{CreateOrganizationRequest}
use build_api.World.External.{Environment}
use build_api.World.Effect.{World}
use build_api.Auth.Rpc.{register_user}
use build_api.Organizations.Rpc.{create}
use build_api.Server.{ServerCall, auth_call, organization_call, serve_call}
use build_api.Auth.Rpc.{serve_auth_call, run_auth_call}
use build_api.Auth.Service.{register}
use build_api.Auth.Sql.{select_user}
use build_api.Auth.Jwt.{
  create_access_token, create_refresh_token, validate_access_token, parse_token,
}
use build_api.Auth.Middleware.{
  authenticate, extract_bearer_token, first_bearer, bearer, looks_like_jwt,
  unary_server_interceptor,
}
use build_api.Auth.Scopes.{has_scope, lookup, enforce_access}
use build_api.Text.{
  split, trim_space, trim_left, trim_right, is_space, cut_prefix, has_prefix, to_lower,
}
use build_api.Cluster.{ensure_org_namespace, count_builders}
use build_api.Organizations.Rpc.{serve_organization_call, run_organization_call}
use build_api.Organizations.Service.{
  create_organization, store_organization, or_roll_back, count_builders_in_namespace,
}
use build_api.Organizations.Sql.{insert_org, insert_owner, select_org_created}
use build_api.Organizations.Slug.{matches_slug, slug_from, is_slug_char, is_plan}
use build_api.Invariant.Tables.{WellFormed}
use build_api.Invariant.Reachable.{
  empty_db, start, next, served, Reachable-WellFormed, empty-WellFormed,
}
use build_api.Invariant.Runs.{no_statement, one_more, user_inserted, Run-WellFormed}
use build_api.Auth.Sql.{insert_user}
use build_api.Tests.Demo.{env, postgres, session}

abbrev new_world : World ℕ
new_world = record { db = empty_db; cluster = 0; now = 5; db_now = 5; step = 0 }

abbrev newcomer : RegisterRequest
newcomer = record { email = "eve@x"; password = "secret"; name = "Eve" }

-- The first user gets the identifier that the demonstration's session token names.
abbrev history_env : Environment ℕ String
history_env = record env {
  pg = record postgres { gen_random_uuid = λ n. if n =? 0 then "ann" else "id-1" };
}

abbrev first_org : CreateOrganizationRequest
first_org = record { name = "Eve's"; slug = "eve"; plan = "pro" }

abbrev register_call : ServerCall
register_call = auth_call (register_user newcomer)

abbrev create_call : ServerCall
create_call = organization_call (create first_org)

abbrev after_register : World ℕ
after_register = (serve_call history_env "s" session register_call new_world).1

Reachable-WellFormed_example :
    WellFormed (serve_call history_env "s" session create_call after_register).1.db
Reachable-WellFormed_example = Reachable-WellFormed history_env "s" (
    next after_register _
      (next new_world _ (start new_world refl) (served session register_call new_world))
      (served session create_call after_register))

-- Two requests register one email at the same time: one of the statements comes first.
Run-WellFormed_example :
    WellFormed
      (insert_user history_env.pg 6 "eve@x" "b" "Eve"
        (insert_user history_env.pg 5 "eve@x" "a" "Eve" empty_db).1).1
Run-WellFormed_example =
    Run-WellFormed history_env
      (one_more _ _ _
        (one_more _ _ _ (no_statement empty_db) (user_inserted 5 "eve@x" "a" "Eve" empty_db))
        (user_inserted 6 "eve@x" "b" "Eve"
          (insert_user history_env.pg 5 "eve@x" "a" "Eve" empty_db).1))
      (empty-WellFormed history_env "s")

-- The history runs: the organization has its owner.
history :
    map (λ m. m.role) (serve_call history_env "s" session create_call after_register).1.db.members
    ≡ "owner" ∷ []
unfolding serve_call serve_auth_call run_auth_call register serve_organization_call
    run_organization_call create_organization store_organization or_roll_back insert_user
    select_user create_access_token create_refresh_token insert_org insert_owner select_org_created
    ensure_org_namespace matches_slug slug_from is_slug_char is_plan has_scope
    unary_server_interceptor authenticate validate_access_token parse_token extract_bearer_token
    first_bearer bearer looks_like_jwt lookup enforce_access split trim_space trim_left trim_right
    is_space cut_prefix has_prefix to_lower count_builders count_builders_in_namespace
history = refl
