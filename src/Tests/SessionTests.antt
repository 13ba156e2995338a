-- ===== src/Tests/SessionTests.antt =====
-- Sessions and deletions: instances in the small environment.
use build_api.Common.{
  ℕ, eq_iff, ◌+◌, String, ◌==◌, ◌≡◌, refl, true, some, [], ◌∷◌, Result, ok, err, if◌then◌else◌, ltb,
  arith,
}
use build_api.Text.{split, trim_space, trim_left, trim_right, is_space, cut_prefix, has_prefix}
use build_api.World.External.{Environment, Claims, SigningMethod, ParsedToken}
use build_api.World.Effect.{World}
use build_api.Api.AuthMessages.{RefreshTokenResponse}
use build_api.Auth.Context.{Principal, with_principal}
use build_api.Auth.Jwt.{access_token_expiry, validate_access_token, parse_token}
use build_api.Auth.Scopes.{has_scope, lookup, enforce_access}
use build_api.Auth.Middleware.Gate.{Admitted}
use build_api.Api.Methods.{delete_organization_method}
use build_api.Organizations.Sql.{select_role, delete_org}
use build_api.Cluster.{delete_org_namespace}
use build_api.Auth.Middleware.{
  authenticate, looks_like_jwt, bearer, first_bearer, extract_bearer_token,
  unary_server_interceptor,
}
use build_api.Auth.Service.{refresh_token}
use build_api.Auth.Service.Session.{authenticate-refresh}
use build_api.Organizations.Service.{delete_organization}
use build_api.Organizations.Service.Roles.{HasRole}
use build_api.Organizations.Service.Deletion.{without_org, delete_organization-succeeds}
use build_api.Organizations.Rpc.{
  OrganizationCall, OrganizationReply, serve_organization_call, run_organization_call,
}
use build_api.Organizations.Rpc.Access.{serve_organization_call-deleted}
use build_api.Tests.Demo.{env, world, db, membership, session, signed_in}

-- The claims that an access token of "ann" gets at the time of the small world.
abbrev issued : Claims
issued = record {
  jti = "jti";
  subject = "ann";
  issued_at = 5;
  expires_at = 5 + access_token_expiry;
  user_id = "ann";
  email = "ann@x";
  type = "access";
}

abbrev held : Claims
held = record issued { type = "refresh" }

-- "a.b.c" is the access token with these claims, "d.e.f" a refresh token; both expire.
abbrev parse_issued :
    (SigningMethod → Result String String) → ℕ → String → Result String ParsedToken
parse_issued key now token =
    if ltb now (5 + access_token_expiry)
    then (if token == "a.b.c"
        then ok (record { claims = some issued; valid = true })
        else if token == "d.e.f"
        then ok (record { claims = some held; valid = true })
        else err "bad")
    else err "expired"

abbrev pub session_env : Environment ℕ String
session_env = record env { jwt = record env.jwt { parse_with_claims = parse_issued } }

abbrev pub full_access : Principal
full_access = record { user_id = "ann"; full_access = true; scopes = [] }

authenticate-refresh_example :
    (r : RefreshTokenResponse) × ((refresh_token session_env "s"
        (record { refresh_token = "d.e.f" })
        world).0
      ≡ ok r)
    × ((authenticate session_env "s" r.access_token (record world { now = 7 })).0 ≡ ok full_access)
unfolding looks_like_jwt split
authenticate-refresh_example =
    authenticate-refresh session_env "s" "d.e.f" "a.b.c" held world
      (ground (arith, eq_iff "d.e.f" "")) refl (omega arith) (λ now alive. ground arith) refl refl
      (λ now alive. ground arith) (record world { now = 7 }) (omega arith)

-- The small world with "ann" as the owner.
abbrev owned : World ℕ
owned = record world { db = record db { members = membership "owner" ∷ [] } }

deletions : Unit {0}
unfolding trim_space trim_left trim_right is_space cut_prefix has_prefix bearer first_bearer
    extract_bearer_token looks_like_jwt split authenticate validate_access_token parse_token
    has_scope lookup enforce_access select_role delete_organization delete_org delete_org_namespace
    serve_organization_call run_organization_call unary_server_interceptor
deletions = tt

delete_organization-succeeds_example :
    ((delete_organization env signed_in "org" owned).0 ≡ ok tt)
    × ((delete_organization env signed_in "org" owned).1.db ≡ without_org "org" owned.db)
    × ((delete_organization env signed_in "org" owned).1.cluster ≡ 1)
unfolding deletions
delete_organization-succeeds_example =
    delete_organization-succeeds env signed_in "org" owned "org" (λ n. refl) refl refl refl refl
      refl refl

serve_organization_call-deleted_example :
    (p : Principal) × (w' : World ℕ) × Admitted env "s" session delete_organization_method owned p
      w'
    × HasRole env (with_principal session p) "org" "owner" w'
    × ((oid : String) × (env.pg.uuid_in "org" ≡ ok oid)
        × ((serve_organization_call env "s" session (OrganizationCall.delete "org") owned).1.db
            ≡ without_org oid w'.db))
unfolding deletions
serve_organization_call-deleted_example =
    serve_organization_call-deleted env "s" session "org" owned OrganizationReply.deleted refl
