-- ===== src/Gateway/BuilderProxy/Local.antt =====
-- The in-process half of api/gen/buildapi/v1/buildapi.pb.gw.go: the same calls on a server of the same process.
use build_api.Common.{List, [], ◌∷◌}
use build_api.Api.Zero.{zero_builder_request, zero_wake_builder_request}
use build_api.World.Effect.{Action, ◌>>=◌}
use build_api.Auth.Context.{Context}
use build_api.Builders.Rpc.{BuilderCall, BuilderReply}
use build_api.Gateway.Edge.{HttpRequest}
use build_api.Gateway.Runtime.{Runtime, PathParams, Route, decode_body, path_param}
use build_api.Gateway.BuilderProxy.{
  pattern_list_builders, pattern_get_builder, pattern_create_builder, pattern_update_builder,
  pattern_delete_builder, pattern_wake_builder, pattern_health_check,
}

module _ {K : Type 0} (rt : Runtime) (server : Context → BuilderCall → Action K BuilderReply) where
  unfoldable pub local_request_list_builders :
      Context → HttpRequest → PathParams → Action K BuilderReply
  local_request_list_builders ctx req params = do
    namespace ← path_param rt params "namespace"
    server ctx (BuilderCall.list namespace)

  unfoldable pub local_request_get_builder :
      Context → HttpRequest → PathParams → Action K BuilderReply
  local_request_get_builder ctx req params = do
    namespace ← path_param rt params "namespace"
    name ← path_param rt params "name"
    server ctx (BuilderCall.get (record { namespace = namespace; name = name }))

  unfoldable pub local_request_create_builder :
      Context → HttpRequest → PathParams → Action K BuilderReply
  local_request_create_builder ctx req params = do
    m ← decode_body rt.marshaler.builder_request req.body zero_builder_request
    namespace ← path_param rt params "namespace"
    server ctx (BuilderCall.create (record m { namespace = namespace }))

  unfoldable pub local_request_update_builder :
      Context → HttpRequest → PathParams → Action K BuilderReply
  local_request_update_builder ctx req params = do
    m ← decode_body rt.marshaler.builder_request req.body zero_builder_request
    namespace ← path_param rt params "namespace"
    name ← path_param rt params "name"
    server ctx (BuilderCall.update (record m { namespace = namespace; name = name }))

  unfoldable pub local_request_delete_builder :
      Context → HttpRequest → PathParams → Action K BuilderReply
  local_request_delete_builder ctx req params = do
    namespace ← path_param rt params "namespace"
    name ← path_param rt params "name"
    server ctx (BuilderCall.delete (record { namespace = namespace; name = name }))

  unfoldable pub local_request_wake_builder :
      Context → HttpRequest → PathParams → Action K BuilderReply
  local_request_wake_builder ctx req params = do
    m ← decode_body rt.marshaler.wake_builder_request req.body zero_wake_builder_request
    namespace ← path_param rt params "namespace"
    name ← path_param rt params "name"
    server ctx (BuilderCall.wake (record m { namespace = namespace; name = name }))

  unfoldable pub local_request_health_check :
      Context → HttpRequest → PathParams → Action K BuilderReply
  local_request_health_check ctx req params = server ctx BuilderCall.health

  -- `RegisterBuildAPIHandlerServer`, as the list of what it gives to `mux.Handle`.
  unfoldable pub register_build_api_handler_server : List (Route K BuilderReply)
  register_build_api_handler_server =
      record {
        http_method = "GET";
        pattern = pattern_list_builders;
        rpc_method = "/buildapi.v1.BuildAPI/ListBuilders";
        path_template = "/v1/namespaces/{namespace}/builders";
        request = local_request_list_builders;
      }
      ∷ record {
        http_method = "GET";
        pattern = pattern_get_builder;
        rpc_method = "/buildapi.v1.BuildAPI/GetBuilder";
        path_template = "/v1/namespaces/{namespace}/builders/{name}";
        request = local_request_get_builder;
      }
      ∷ record {
        http_method = "POST";
        pattern = pattern_create_builder;
        rpc_method = "/buildapi.v1.BuildAPI/CreateBuilder";
        path_template = "/v1/namespaces/{namespace}/builders";
        request = local_request_create_builder;
      }
      ∷ record {
        http_method = "PATCH";
        pattern = pattern_update_builder;
        rpc_method = "/buildapi.v1.BuildAPI/UpdateBuilder";
        path_template = "/v1/namespaces/{namespace}/builders/{name}";
        request = local_request_update_builder;
      }
      ∷ record {
        http_method = "DELETE";
        pattern = pattern_delete_builder;
        rpc_method = "/buildapi.v1.BuildAPI/DeleteBuilder";
        path_template = "/v1/namespaces/{namespace}/builders/{name}";
        request = local_request_delete_builder;
      }
      ∷ record {
        http_method = "POST";
        pattern = pattern_wake_builder;
        rpc_method = "/buildapi.v1.BuildAPI/WakeBuilder";
        path_template = "/v1/namespaces/{namespace}/builders/{name}/wake";
        request = local_request_wake_builder;
      }
      ∷ record {
        http_method = "GET";
        pattern = pattern_health_check;
        rpc_method = "/buildapi.v1.BuildAPI/HealthCheck";
        path_template = "/v1/health";
        request = local_request_health_check;
      }
      ∷ []
