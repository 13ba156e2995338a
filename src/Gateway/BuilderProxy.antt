-- ===== src/Gateway/BuilderProxy.antt =====
-- The functions of api/gen/buildapi/v1/buildapi.pb.gw.go. Reading a body to its end is left out.
pub mod Local
use build_api.Common.{String, ℕ, List, [], ◌∷◌}
use build_api.Api.Zero.{zero_builder_request, zero_wake_builder_request}
use build_api.World.Effect.{World, Action, ◌>>=◌}
use build_api.Auth.Context.{Context}
use build_api.Builders.Rpc.{BuilderCall, BuilderReply}
use build_api.Gateway.Edge.{HttpRequest}
use build_api.Gateway.Runtime.{Runtime, PathParams, Pattern, Route, decode_body, path_param}

abbrev pub pattern_list_builders : Pattern
pattern_list_builders = record {
  version = 1;
  ops = 2 ∷ 0 ∷ 2 ∷ 1 ∷ 1 ∷ 0 ∷ 4 ∷ 1 ∷ 5 ∷ 2 ∷ 2 ∷ 3 ∷ [];
  pool = "v1" ∷ "namespaces" ∷ "namespace" ∷ "builders" ∷ [];
  verb = "";
}

abbrev pub pattern_get_builder : Pattern
pattern_get_builder = record {
  version = 1;
  ops = 2 ∷ 0 ∷ 2 ∷ 1 ∷ 1 ∷ 0 ∷ 4 ∷ 1 ∷ 5 ∷ 2 ∷ 2 ∷ 3 ∷ 1 ∷ 0 ∷ 4 ∷ 1 ∷ 5 ∷ 4 ∷ [];
  pool = "v1" ∷ "namespaces" ∷ "namespace" ∷ "builders" ∷ "name" ∷ [];
  verb = "";
}

abbrev pub pattern_create_builder : Pattern
pattern_create_builder = record {
  version = 1;
  ops = 2 ∷ 0 ∷ 2 ∷ 1 ∷ 1 ∷ 0 ∷ 4 ∷ 1 ∷ 5 ∷ 2 ∷ 2 ∷ 3 ∷ [];
  pool = "v1" ∷ "namespaces" ∷ "namespace" ∷ "builders" ∷ [];
  verb = "";
}

abbrev pub pattern_update_builder : Pattern
pattern_update_builder = record {
  version = 1;
  ops = 2 ∷ 0 ∷ 2 ∷ 1 ∷ 1 ∷ 0 ∷ 4 ∷ 1 ∷ 5 ∷ 2 ∷ 2 ∷ 3 ∷ 1 ∷ 0 ∷ 4 ∷ 1 ∷ 5 ∷ 4 ∷ [];
  pool = "v1" ∷ "namespaces" ∷ "namespace" ∷ "builders" ∷ "name" ∷ [];
  verb = "";
}

abbrev pub pattern_delete_builder : Pattern
pattern_delete_builder = record {
  version = 1;
  ops = 2 ∷ 0 ∷ 2 ∷ 1 ∷ 1 ∷ 0 ∷ 4 ∷ 1 ∷ 5 ∷ 2 ∷ 2 ∷ 3 ∷ 1 ∷ 0 ∷ 4 ∷ 1 ∷ 5 ∷ 4 ∷ [];
  pool = "v1" ∷ "namespaces" ∷ "namespace" ∷ "builders" ∷ "name" ∷ [];
  verb = "";
}

abbrev pub pattern_wake_builder : Pattern
pattern_wake_builder = record {
  version = 1;
  ops = 2 ∷ 0 ∷ 2 ∷ 1 ∷ 1 ∷ 0 ∷ 4 ∷ 1 ∷ 5 ∷ 2 ∷ 2 ∷ 3 ∷ 1 ∷ 0 ∷ 4 ∷ 1 ∷ 5 ∷ 4 ∷ 2 ∷ 5 ∷ [];
  pool = "v1" ∷ "namespaces" ∷ "namespace" ∷ "builders" ∷ "name" ∷ "wake" ∷ [];
  verb = "";
}

abbrev pub pattern_health_check : Pattern
pattern_health_check = record {
  version = 1;
  ops = 2 ∷ 0 ∷ 2 ∷ 1 ∷ [];
  pool = "v1" ∷ "health" ∷ [];
  verb = "";
}

module _ {K : Type 0} (rt : Runtime) (client : Context → BuilderCall → Action K BuilderReply) where
  unfoldable pub request_list_builders : Context → HttpRequest → PathParams → Action K BuilderReply
  request_list_builders ctx req params = do
    namespace ← path_param rt params "namespace"
    client ctx (BuilderCall.list namespace)

  unfoldable pub request_get_builder : Context → HttpRequest → PathParams → Action K BuilderReply
  request_get_builder ctx req params = do
    namespace ← path_param rt params "namespace"
    name ← path_param rt params "name"
    client ctx (BuilderCall.get (record { namespace = namespace; name = name }))

  unfoldable pub request_create_builder : Context → HttpRequest → PathParams → Action K BuilderReply
  request_create_builder ctx req params = do
    m ← decode_body rt.marshaler.builder_request req.body zero_builder_request
    namespace ← path_param rt params "namespace"
    client ctx (BuilderCall.create (record m { namespace = namespace }))

  unfoldable pub request_update_builder : Context → HttpRequest → PathParams → Action K BuilderReply
  request_update_builder ctx req params = do
    m ← decode_body rt.marshaler.builder_request req.body zero_builder_request
    namespace ← path_param rt params "namespace"
    name ← path_param rt params "name"
    client ctx (BuilderCall.update (record m { namespace = namespace; name = name }))

  unfoldable pub request_delete_builder : Context → HttpRequest → PathParams → Action K BuilderReply
  request_delete_builder ctx req params = do
    namespace ← path_param rt params "namespace"
    name ← path_param rt params "name"
    client ctx (BuilderCall.delete (record { namespace = namespace; name = name }))

  unfoldable pub request_wake_builder : Context → HttpRequest → PathParams → Action K BuilderReply
  request_wake_builder ctx req params = do
    m ← decode_body rt.marshaler.wake_builder_request req.body zero_wake_builder_request
    namespace ← path_param rt params "namespace"
    name ← path_param rt params "name"
    client ctx (BuilderCall.wake (record m { namespace = namespace; name = name }))

  unfoldable pub request_health_check : Context → HttpRequest → PathParams → Action K BuilderReply
  request_health_check ctx req params = client ctx BuilderCall.health

  -- `RegisterBuildAPIHandlerClient`, as the list of what it gives to `mux.Handle`.
  unfoldable pub register_build_api_handler_client : List (Route K BuilderReply)
  register_build_api_handler_client =
      record {
        http_method = "GET";
        pattern = pattern_list_builders;
        rpc_method = "/buildapi.v1.BuildAPI/ListBuilders";
        path_template = "/v1/namespaces/{namespace}/builders";
        request = request_list_builders;
      }
      ∷ record {
        http_method = "GET";
        pattern = pattern_get_builder;
        rpc_method = "/buildapi.v1.BuildAPI/GetBuilder";
        path_template = "/v1/namespaces/{namespace}/builders/{name}";
        request = request_get_builder;
      }
      ∷ record {
        http_method = "POST";
        pattern = pattern_create_builder;
        rpc_method = "/buildapi.v1.BuildAPI/CreateBuilder";
        path_template = "/v1/namespaces/{namespace}/builders";
        request = request_create_builder;
      }
      ∷ record {
        http_method = "PATCH";
        pattern = pattern_update_builder;
        rpc_method = "/buildapi.v1.BuildAPI/UpdateBuilder";
        path_template = "/v1/namespaces/{namespace}/builders/{name}";
        request = request_update_builder;
      }
      ∷ record {
        http_method = "DELETE";
        pattern = pattern_delete_builder;
        rpc_method = "/buildapi.v1.BuildAPI/DeleteBuilder";
        path_template = "/v1/namespaces/{namespace}/builders/{name}";
        request = request_delete_builder;
      }
      ∷ record {
        http_method = "POST";
        pattern = pattern_wake_builder;
        rpc_method = "/buildapi.v1.BuildAPI/WakeBuilder";
        path_template = "/v1/namespaces/{namespace}/builders/{name}/wake";
        request = request_wake_builder;
      }
      ∷ record {
        http_method = "GET";
        pattern = pattern_health_check;
        rpc_method = "/buildapi.v1.BuildAPI/HealthCheck";
        path_template = "/v1/health";
        request = request_health_check;
      }
      ∷ []
