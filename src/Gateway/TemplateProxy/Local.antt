-- ===== src/Gateway/TemplateProxy/Local.antt =====
-- The in-process half of api/gen/buildapi/v1/templates.pb.gw.go: the same calls on a server of the same process.
use build_api.Common.{List, [], ◌∷◌}
use build_api.Api.Zero.{zero_template_request}
use build_api.World.Effect.{Action, ◌>>=◌}
use build_api.Auth.Context.{Context}
use build_api.Templates.Rpc.{TemplateCall, TemplateReply}
use build_api.Gateway.Edge.{HttpRequest}
use build_api.Gateway.Runtime.{Runtime, PathParams, Route, decode_body, path_param}
use build_api.Gateway.TemplateProxy.{
  pattern_list_templates, pattern_get_template, pattern_create_template, pattern_update_template,
  pattern_delete_template,
}

module _ {K : Type 0} (rt : Runtime)
    (server : Context → TemplateCall → Action K TemplateReply) where
  unfoldable pub local_request_list_templates :
      Context → HttpRequest → PathParams → Action K TemplateReply
  local_request_list_templates ctx req params = do
    namespace ← path_param rt params "namespace"
    server ctx (TemplateCall.list namespace)

  unfoldable pub local_request_get_template :
      Context → HttpRequest → PathParams → Action K TemplateReply
  local_request_get_template ctx req params = do
    namespace ← path_param rt params "namespace"
    name ← path_param rt params "name"
    server ctx (TemplateCall.get (record { namespace = namespace; name = name }))

  unfoldable pub local_request_create_template :
      Context → HttpRequest → PathParams → Action K TemplateReply
  local_request_create_template ctx req params = do
    m ← decode_body rt.marshaler.template_request req.body zero_template_request
    namespace ← path_param rt params "namespace"
    server ctx (TemplateCall.create (record m { namespace = namespace }))

  unfoldable pub local_request_update_template :
      Context → HttpRequest → PathParams → Action K TemplateReply
  local_request_update_template ctx req params = do
    m ← decode_body rt.marshaler.template_request req.body zero_template_request
    namespace ← path_param rt params "namespace"
    name ← path_param rt params "name"
    server ctx (TemplateCall.update (record m { namespace = namespace; name = name }))

  unfoldable pub local_request_delete_template :
      Context → HttpRequest → PathParams → Action K TemplateReply
  local_request_delete_template ctx req params = do
    namespace ← path_param rt params "namespace"
    name ← path_param rt params "name"
    server ctx (TemplateCall.delete (record { namespace = namespace; name = name }))

  -- `RegisterTemplateServiceHandlerServer`, as the list of what it gives to `mux.Handle`.
  unfoldable pub register_template_service_handler_server : List (Route K TemplateReply)
  register_template_service_handler_server =
      record {
        http_method = "GET";
        pattern = pattern_list_templates;
        rpc_method = "/buildapi.v1.TemplateService/ListTemplates";
        path_template = "/v1/namespaces/{namespace}/templates";
        request = local_request_list_templates;
      }
      ∷ record {
        http_method = "GET";
        pattern = pattern_get_template;
        rpc_method = "/buildapi.v1.TemplateService/GetTemplate";
        path_template = "/v1/namespaces/{namespace}/templates/{name}";
        request = local_request_get_template;
      }
      ∷ record {
        http_method = "POST";
        pattern = pattern_create_template;
        rpc_method = "/buildapi.v1.TemplateService/CreateTemplate";
        path_template = "/v1/namespaces/{namespace}/templates";
        request = local_request_create_template;
      }
      ∷ record {
        http_method = "PATCH";
        pattern = pattern_update_template;
        rpc_method = "/buildapi.v1.TemplateService/UpdateTemplate";
        path_template = "/v1/namespaces/{namespace}/templates/{name}";
        request = local_request_update_template;
      }
      ∷ record {
        http_method = "DELETE";
        pattern = pattern_delete_template;
        rpc_method = "/buildapi.v1.TemplateService/DeleteTemplate";
        path_template = "/v1/namespaces/{namespace}/templates/{name}";
        request = local_request_delete_template;
      }
      ∷ []
