-- ===== src/Gateway/TemplateProxy.antt =====
-- The functions of api/gen/buildapi/v1/templates.pb.gw.go. Reading a body to its end is left out.
pub mod Local
use build_api.Common.{String, ℕ, List, [], ◌∷◌}
use build_api.Api.Zero.{zero_template_request}
use build_api.World.Effect.{World, Action, ◌>>=◌}
use build_api.Auth.Context.{Context}
use build_api.Templates.Rpc.{TemplateCall, TemplateReply}
use build_api.Gateway.Edge.{HttpRequest}
use build_api.Gateway.Runtime.{Runtime, PathParams, Pattern, Route, decode_body, path_param}

abbrev pub pattern_list_templates : Pattern
pattern_list_templates = record {
  version = 1;
  ops = 2 ∷ 0 ∷ 2 ∷ 1 ∷ 1 ∷ 0 ∷ 4 ∷ 1 ∷ 5 ∷ 2 ∷ 2 ∷ 3 ∷ [];
  pool = "v1" ∷ "namespaces" ∷ "namespace" ∷ "templates" ∷ [];
  verb = "";
}

abbrev pub pattern_get_template : Pattern
pattern_get_template = record {
  version = 1;
  ops = 2 ∷ 0 ∷ 2 ∷ 1 ∷ 1 ∷ 0 ∷ 4 ∷ 1 ∷ 5 ∷ 2 ∷ 2 ∷ 3 ∷ 1 ∷ 0 ∷ 4 ∷ 1 ∷ 5 ∷ 4 ∷ [];
  pool = "v1" ∷ "namespaces" ∷ "namespace" ∷ "templates" ∷ "name" ∷ [];
  verb = "";
}

abbrev pub pattern_create_template : Pattern
pattern_create_template = record {
  version = 1;
  ops = 2 ∷ 0 ∷ 2 ∷ 1 ∷ 1 ∷ 0 ∷ 4 ∷ 1 ∷ 5 ∷ 2 ∷ 2 ∷ 3 ∷ [];
  pool = "v1" ∷ "namespaces" ∷ "namespace" ∷ "templates" ∷ [];
  verb = "";
}

abbrev pub pattern_update_template : Pattern
pattern_update_template = record {
  version = 1;
  ops = 2 ∷ 0 ∷ 2 ∷ 1 ∷ 1 ∷ 0 ∷ 4 ∷ 1 ∷ 5 ∷ 2 ∷ 2 ∷ 3 ∷ 1 ∷ 0 ∷ 4 ∷ 1 ∷ 5 ∷ 4 ∷ [];
  pool = "v1" ∷ "namespaces" ∷ "namespace" ∷ "templates" ∷ "name" ∷ [];
  verb = "";
}

abbrev pub pattern_delete_template : Pattern
pattern_delete_template = record {
  version = 1;
  ops = 2 ∷ 0 ∷ 2 ∷ 1 ∷ 1 ∷ 0 ∷ 4 ∷ 1 ∷ 5 ∷ 2 ∷ 2 ∷ 3 ∷ 1 ∷ 0 ∷ 4 ∷ 1 ∷ 5 ∷ 4 ∷ [];
  pool = "v1" ∷ "namespaces" ∷ "namespace" ∷ "templates" ∷ "name" ∷ [];
  verb = "";
}

module _ {K : Type 0} (rt : Runtime)
    (client : Context → TemplateCall → Action K TemplateReply) where
  unfoldable pub request_list_templates :
      Context → HttpRequest → PathParams → Action K TemplateReply
  request_list_templates ctx req params = do
    namespace ← path_param rt params "namespace"
    client ctx (TemplateCall.list namespace)

  unfoldable pub request_get_template : Context → HttpRequest → PathParams → Action K TemplateReply
  request_get_template ctx req params = do
    namespace ← path_param rt params "namespace"
    name ← path_param rt params "name"
    client ctx (TemplateCall.get (record { namespace = namespace; name = name }))

  unfoldable pub request_create_template :
      Context → HttpRequest → PathParams → Action K TemplateReply
  request_create_template ctx req params = do
    m ← decode_body rt.marshaler.template_request req.body zero_template_request
    namespace ← path_param rt params "namespace"
    client ctx (TemplateCall.create (record m { namespace = namespace }))

  unfoldable pub request_update_template :
      Context → HttpRequest → PathParams → Action K TemplateReply
  request_update_template ctx req params = do
    m ← decode_body rt.marshaler.template_request req.body zero_template_request
    namespace ← path_param rt params "namespace"
    name ← path_param rt params "name"
    client ctx (TemplateCall.update (record m { namespace = namespace; name = name }))

  unfoldable pub request_delete_template :
      Context → HttpRequest → PathParams → Action K TemplateReply
  request_delete_template ctx req params = do
    namespace ← path_param rt params "namespace"
    name ← path_param rt params "name"
    client ctx (TemplateCall.delete (record { namespace = namespace; name = name }))

  -- `RegisterTemplateServiceHandlerClient`, as the list of what it gives to `mux.Handle`.
  unfoldable pub register_template_service_handler_client : List (Route K TemplateReply)
  register_template_service_handler_client =
      record {
        http_method = "GET";
        pattern = pattern_list_templates;
        rpc_method = "/buildapi.v1.TemplateService/ListTemplates";
        path_template = "/v1/namespaces/{namespace}/templates";
        request = request_list_templates;
      }
      ∷ record {
        http_method = "GET";
        pattern = pattern_get_template;
        rpc_method = "/buildapi.v1.TemplateService/GetTemplate";
        path_template = "/v1/namespaces/{namespace}/templates/{name}";
        request = request_get_template;
      }
      ∷ record {
        http_method = "POST";
        pattern = pattern_create_template;
        rpc_method = "/buildapi.v1.TemplateService/CreateTemplate";
        path_template = "/v1/namespaces/{namespace}/templates";
        request = request_create_template;
      }
      ∷ record {
        http_method = "PATCH";
        pattern = pattern_update_template;
        rpc_method = "/buildapi.v1.TemplateService/UpdateTemplate";
        path_template = "/v1/namespaces/{namespace}/templates/{name}";
        request = request_update_template;
      }
      ∷ record {
        http_method = "DELETE";
        pattern = pattern_delete_template;
        rpc_method = "/buildapi.v1.TemplateService/DeleteTemplate";
        path_template = "/v1/namespaces/{namespace}/templates/{name}";
        request = request_delete_template;
      }
      ∷ []
