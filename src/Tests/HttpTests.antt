-- ===== src/Tests/HttpTests.antt =====
-- The whole server over HTTP: a deletion, and a registration from empty tables.
use build_api.Common.{ℕ, ◌==◌, ◌≡◌, ◌⊎◌, refl, true, false, none, some, [], ◌∷◌, if◌then◌else◌, map}
use build_api.Text.{split, trim_space, trim_left, trim_right, is_space, cut_prefix, has_prefix}
use build_api.World.Effect.{World}
use build_api.World.Sql.{select_is_member}
use build_api.Membership.{ensure_org_member}
use build_api.Auth.Scopes.{has_scope, lookup, enforce_access}
use build_api.Auth.Jwt.{
  validate_access_token, parse_token, create_access_token, create_refresh_token,
}
use build_api.Auth.Middleware.{
  unary_server_interceptor, authenticate, extract_bearer_token, first_bearer, bearer,
  looks_like_jwt,
}
use build_api.Auth.Rpc.{serve_auth_call, run_auth_call}
use build_api.Auth.Service.{register}
use build_api.Auth.Sql.{insert_user, select_user}
use build_api.Builders.Service.{delete_builder}
use build_api.Builders.Rpc.{serve_builder_call, run_builder_call}
use build_api.Gateway.Edge.{
  HttpResponse, HttpRequest, cors_handler, cors_headers, root_mux, logout_handler, set_header,
  set_auth_cookie,
}
use build_api.Gateway.Runtime.{Runtime, serve_route}
use build_api.Gateway.AuthProxy.{register_auth_service_handler_client, request_register}
use build_api.Gateway.BuilderProxy.{register_build_api_handler_client, request_delete_builder}
use build_api.Gateway.Http.{ServeMux, gw_mux, http_server}
use build_api.Gateway.Http.Serving.{is_local, Served, http_server-Served}
use build_api.Invariant.Reachable.{empty_db}
use build_api.Tests.Demo.{env, world}
use build_api.Tests.GatewayTests.{runtime, sent, params}

over_http : Unit {0}
unfolding http_server gw_mux cors_handler cors_headers root_mux logout_handler set_header
    set_auth_cookie serve_route register_auth_service_handler_client
    register_build_api_handler_client request_delete_builder request_register serve_builder_call
    run_builder_call delete_builder serve_auth_call run_auth_call register insert_user select_user
    create_access_token create_refresh_token ensure_org_member select_is_member
    unary_server_interceptor authenticate validate_access_token parse_token extract_bearer_token
    first_bearer bearer looks_like_jwt has_scope lookup enforce_access split trim_space trim_left
    trim_right is_space cut_prefix has_prefix
over_http = tt

abbrev no_response : HttpResponse
no_response = record { headers = []; cookies = []; status = none }

-- A mux that knows two routes, by their places.
abbrev mux : ServeMux
mux = record {
  dispatch = λ table r.
      if r.path == "/v1/auth/register"
      then some (0, [])
      else if r.path == "/v1/namespaces/org/builders/b"
      then some (12, params)
      else none;
  unmatched = λ r w. record w { status = some 404 };
}

abbrev deletion : HttpRequest
deletion = record sent { method = "DELETE" }

http_server-Served_example :
    ((is_local deletion ≡ true)
      × ((http_server env "s" runtime mux ("a" ∷ []) deletion no_response world).1 ≡ world))
    ⊎ ((is_local deletion ≡ false)
        × Served env "s" runtime deletion world
            (http_server env "s" runtime mux ("a" ∷ []) deletion no_response world).1)
http_server-Served_example =
    http_server-Served env "s" runtime mux ("a" ∷ []) deletion no_response world

-- The session of the small environment deletes a builder: one write to the cluster.
deleted : (http_server env "s" runtime mux ("a" ∷ []) deletion no_response world).1.cluster ≡ 1
unfolding over_http
deleted = refl

abbrev form_runtime : Runtime
form_runtime = record runtime {
  marshaler = record runtime.marshaler {
    register_request = λ body m. (record { email = "eve@x"; password = "pw"; name = "Eve" }, none);
  };
}

abbrev registration : HttpRequest
registration = record sent { method = "POST"; path = "/v1/auth/register" }

abbrev at_start : World ℕ
at_start = record world { db = empty_db }

-- The state after one registration over HTTP.
abbrev register_eve : World ℕ → World ℕ
register_eve w = (http_server env "s" form_runtime mux [] registration no_response w).1

-- The second registration of the same email adds no user.
registered_once : map (λ u. u.name) (register_eve (register_eve at_start)).db.users ≡ "Eve" ∷ []
unfolding over_http
registered_once = refl
