-- ===== src/Builders/Stub.antt =====
-- internal/buildapi/server.go: another server for the builder service, which nothing refers to, with
-- the methods that it inherits from UnimplementedBuildAPIServer of api/gen/buildapi/v1.
use build_api.Common.{◌≡◌, refl, Result, ok, err}
use build_api.Status.{Status, status_error, unimplemented}
use build_api.Api.Methods.{health_check_method}
use build_api.Builders.Rpc.{
  BuilderCall, list, get, create, update, delete, wake, health, BuilderReply, healthy,
  builder_method,
}

-- The methods of `UnimplementedBuildAPIServer`.
unfoldable unimplemented_build_api_server : BuilderCall → Result Status BuilderReply
unimplemented_build_api_server (list ns) =
    err (status_error unimplemented "method ListBuilders not implemented")
unimplemented_build_api_server (get req) =
    err (status_error unimplemented "method GetBuilder not implemented")
unimplemented_build_api_server (create req) =
    err (status_error unimplemented "method CreateBuilder not implemented")
unimplemented_build_api_server (update req) =
    err (status_error unimplemented "method UpdateBuilder not implemented")
unimplemented_build_api_server (delete req) =
    err (status_error unimplemented "method DeleteBuilder not implemented")
unimplemented_build_api_server (wake req) =
    err (status_error unimplemented "method WakeBuilder not implemented")
unimplemented_build_api_server health =
    err (status_error unimplemented "method HealthCheck not implemented")

-- The methods of `Server`; it has none for an update and a deletion.
unfoldable stub_server : BuilderCall → Result Status BuilderReply
stub_server (list ns) = err (status_error unimplemented "ListBuilders not implemented")
stub_server (get req) = err (status_error unimplemented "GetBuilder not implemented")
stub_server (create req) = err (status_error unimplemented "CreateBuilder not implemented")
stub_server (wake req) = err (status_error unimplemented "WakeBuilder not implemented")
stub_server health = ok (healthy "ok")
stub_server (update req) = unimplemented_build_api_server (update req)
stub_server (delete req) = unimplemented_build_api_server (delete req)

-- It answers the health check and nothing else.
stub_server-health :
    (c : BuilderCall) (r : BuilderReply)
    → stub_server c ≡ ok r
    → builder_method c ≡ health_check_method
unfolding stub_server unimplemented_build_api_server
stub_server-health health r answered = refl
stub_server-health (list ns) r answered = cc
stub_server-health _ r answered = cc
