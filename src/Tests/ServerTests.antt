-- ===== src/Tests/ServerTests.antt =====
-- API keys on the whole server: instances and runs in the small environment.
use build_api.Common.{
  ℕ, String, ◌==◌, ◌≡◌, refl, false, some, none, List, [], ◌∷◌, ok, err, if◌then◌else◌,
}
use build_api.Text.{split, trim_space, trim_left, trim_right, is_space, cut_prefix, has_prefix}
use build_api.Status.{Status}
use build_api.World.Effect.{World}
use build_api.Auth.Context.{Context, Principal}
use build_api.Auth.Encoding.{hex}
use build_api.Auth.Keys.{lookup_api_key, hash_api_key_token, select_live_key, touch_key, is_live}
use build_api.Auth.Middleware.{
  authenticate, looks_like_jwt, bearer, first_bearer, extract_bearer_token,
}
use build_api.Auth.Scopes.{has_scope, lookup}
use build_api.Api.OrganizationMessages.{Organization}
use build_api.Cluster.{count_builders}
use build_api.Common.Int.{pos, to_int32}
use build_api.Auth.Middleware.{unary_server_interceptor}
use build_api.Auth.Scopes.{enforce_access}
use build_api.Auth.Jwt.{validate_access_token, parse_token}
use build_api.Organizations.Sql.{select_org}
use build_api.Organizations.Service.{get_organization, count_builders_in_namespace}
use build_api.Server.Members.{ByMember, serve_call-IsMember}
use build_api.Builders.Rpc.{delete}
use build_api.Organizations.Rpc.{
  update, get, organization, serve_organization_call, run_organization_call,
}
use build_api.Server.{ServerCall, builder_call, organization_call, organization_reply, serve_call}
use build_api.Server.Refused.{serve_call-unknown_scopes}
use build_api.Server.ReadOnly.{serve_call-read_only}
use build_api.Server.Escalation.{serve_call-no_escalation}
use build_api.Tests.Demo.{env, world, db, key, session}

keys : Unit {0}
unfolding authenticate lookup_api_key hash_api_key_token select_live_key touch_key is_live hex
    extract_bearer_token first_bearer bearer looks_like_jwt has_scope lookup split trim_space
    trim_left trim_right is_space cut_prefix has_prefix
keys = tt

-- A request of a script, with an API key of "ann".
abbrev script : Context
script = record {
  principal = none;
  metadata = some (λ k. if k == "authorization" then "Bearer bh_x" ∷ [] else []);
}

abbrev key_world : List String → World ℕ
key_world scopes = record world {
  db = record db { keys = record key { key_hash = "abcd"; scopes = scopes } ∷ [] };
}

abbrev holder : List String → Principal
holder scopes = record { user_id = "ann"; full_access = false; scopes = scopes }

abbrev delete_call : ServerCall
delete_call = builder_call (delete (record { namespace = "org"; name = "b" }))

abbrev read_only_world : World ℕ
read_only_world = key_world ("builders:read" ∷ "organizations:read" ∷ [])

serve_call-read_only_example :
    ((serve_call env "s" script delete_call read_only_world).1.db
      ≡ (authenticate env "s" "bh_x" read_only_world).1.db)
    × ((serve_call env "s" script delete_call read_only_world).1.cluster ≡ 0)
unfolding keys
serve_call-read_only_example =
    serve_call-read_only env "s" script delete_call read_only_world "bh_x"
      (holder ("builders:read" ∷ "organizations:read" ∷ [])) refl refl refl refl refl

abbrev padded_world : World ℕ
padded_world = key_world (" builders:write" ∷ [])

serve_call-unknown_scopes_example :
    (s : Status) × (serve_call env "s" script delete_call padded_world
      ≡ (err s, (authenticate env "s" "bh_x" padded_world).1))
unfolding keys
serve_call-unknown_scopes_example =
    serve_call-unknown_scopes env "s" script delete_call padded_world "bh_x"
      (holder (" builders:write" ∷ [])) refl refl refl refl refl

abbrev update_call : ServerCall
update_call = organization_call (update (record { id = "org"; name = "New"; slug = ""; plan = "" }))

abbrev writing_world : World ℕ
writing_world = key_world ("organizations:write" ∷ [])

serve_call-no_escalation_example :
    ((serve_call env "s" script update_call writing_world).1.db.users
      ≡ (authenticate env "s" "bh_x" writing_world).1.db.users)
    × ((serve_call env "s" script update_call writing_world).1.db.keys
        ≡ (authenticate env "s" "bh_x" writing_world).1.db.keys)
unfolding keys
serve_call-no_escalation_example =
    serve_call-no_escalation env "s" script update_call writing_world "bh_x"
      (holder ("organizations:write" ∷ [])) refl refl refl refl

abbrev get_call : ServerCall
get_call = organization_call (get "org")

abbrev shown : Organization
shown = record {
  id = "org";
  name = "Org";
  slug = "org";
  plan = "pro";
  created_at = 2;
  builder_count = pos 1;
  total_minutes = pos 0;
  monthly_minutes = pos 0;
  member_count = pos 1;
}

-- A session of a member reads the organization.
answered :
    (serve_call env "s" session get_call world).0 ≡ ok (organization_reply (organization shown))
unfolding serve_call serve_organization_call run_organization_call get_organization select_org
    count_builders_in_namespace count_builders to_int32 unary_server_interceptor enforce_access
    validate_access_token parse_token authenticate extract_bearer_token first_bearer bearer
    looks_like_jwt has_scope lookup split trim_space trim_left trim_right is_space cut_prefix
    has_prefix
answered = refl

serve_call-IsMember_example : ByMember env "s" session world get_call "org"
serve_call-IsMember_example =
    serve_call-IsMember env "s" session world get_call "org"
      (organization_reply (organization shown)) refl answered
