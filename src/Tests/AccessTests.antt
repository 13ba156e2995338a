-- ===== src/Tests/AccessTests.antt =====
-- Who may call what: instances and runs in the small environment.
use build_api.Common.{ℕ, String, ◌≡◌, ◌⊎◌, refl, true, false, List, [], ◌∷◌, ok, err}
use build_api.Status.{Status, status_error, status_errorf, unauthenticated, permission_denied}
use build_api.Text.{split, trim_space, cut_prefix, has_prefix, is_space, trim_left, trim_right}
use build_api.Api.Methods.{list_builders_method, get_me_method}
use build_api.World.Effect.{World, Action, pure}
use build_api.World.Sql.{select_is_member}
use build_api.Membership.{ensure_org_member}
use build_api.Auth.Context.{Context, Principal, with_principal}
use build_api.Auth.Encoding.{hex}
use build_api.Auth.Keys.{lookup_api_key, hash_api_key_token, select_live_key, touch_key, is_live}
use build_api.Auth.Jwt.{validate_access_token, parse_token}
use build_api.Auth.Scopes.{has_scope, lookup, enforce_access}
use build_api.Auth.Scopes.Table.{mentions, mentions-registered}
use build_api.Auth.Middleware.{
  looks_like_jwt, bearer, first_bearer, extract_bearer_token, authenticate,
  unary_server_interceptor, bad_token,
}
use build_api.Auth.Middleware.Gate.{Admitted, unary_server_interceptor-gate}
use build_api.Builders.Convert.{cr_to_proto}
use build_api.Builders.Service.{get_builder}
use build_api.Builders.Rpc.{BuilderCall, run_builder_call, serve_builder_call}
use build_api.Templates.Convert.{
  template_cr_to_proto, template_spec_to_proto, resource_requirements_to_proto,
}
use build_api.Templates.Service.{get_template}
use build_api.Templates.Rpc.{TemplateCall, run_template_call, serve_template_call}
use build_api.Tests.Demo.{env, world, session}

access : Unit {0}
unfolding serve_builder_call run_builder_call get_builder serve_template_call run_template_call
    get_template ensure_org_member select_is_member cr_to_proto template_cr_to_proto
    template_spec_to_proto resource_requirements_to_proto unary_server_interceptor authenticate
    validate_access_token parse_token lookup_api_key hash_api_key_token select_live_key touch_key
    is_live hex extract_bearer_token first_bearer bearer looks_like_jwt has_scope lookup
    enforce_access split trim_space trim_left trim_right is_space cut_prefix has_prefix
    status_errorf
access = tt

abbrev key_of : List String → Principal
key_of scopes = record { user_id = "ann"; full_access = false; scopes = scopes }

abbrev get_call : BuilderCall
get_call = BuilderCall.get (record { namespace = "org"; name = "b" })

abbrev get_template_call : TemplateCall
get_template_call = TemplateCall.get (record { namespace = "org"; name = "t" })

abbrev ann_session : Principal
ann_session = record { user_id = "ann"; full_access = true; scopes = [] }

abbrev say : String → Context → ℕ → Action ℕ String
say text ctx n = pure text

unary_server_interceptor-gate_example :
    ((s : Status) × (w' : World ℕ) × ((s.code ≡ unauthenticated) ⊎ (s.code ≡ permission_denied))
      × (unary_server_interceptor env "s" session 7 get_me_method (say "a") world ≡ (err s, w'))
      × (unary_server_interceptor env "s" session 7 get_me_method (say "b") world ≡ (err s, w')))
    ⊎ ((p : Principal) × (w' : World ℕ) × Admitted env "s" session get_me_method world p w'
        × (unary_server_interceptor env "s" session 7 get_me_method (say "a") world
            ≡ say "a" (with_principal session p) 7 w'))
unfolding access
unary_server_interceptor-gate_example =
    unary_server_interceptor-gate env "s" session 7 get_me_method (say "a") (say "b") world refl

abbrev outsider : Status
outsider = status_error permission_denied "not a member of this organization"

abbrev elsewhere : BuilderCall
elsewhere = BuilderCall.get (record { namespace = "other"; name = "b" })

abbrev template_elsewhere : TemplateCall
template_elsewhere = TemplateCall.delete (record { namespace = "other"; name = "t" })

mentions-registered_example : mentions list_builders_method ≡ 1
unfolding access
mentions-registered_example = mentions-registered list_builders_method refl

-- A key that does not hash to a row, and a header of another scheme.
unknown_key : (authenticate env "s" "bh_x" world).0 ≡ err bad_token
unfolding access
unknown_key = refl

other_scheme : first_bearer ("Basic x" ∷ " Bearer  t " ∷ []) ≡ ok "t"
unfolding access
other_scheme = refl
