-- ===== src/Templates/Rpc.antt =====
-- The service `TemplateService` as the server dispatches it:
-- api/gen/buildapi/v1/templates_grpc.pb.go.
pub mod Access
pub mod Frame
pub mod Isolation
use build_api.Common.{String, List, Option}
use build_api.Api.TemplateMessages.{BuilderTemplate, TemplateRequest, TemplateName}
use build_api.Api.Methods.{
  list_templates_method, get_template_method, create_template_method, update_template_method,
  delete_template_method,
}
use build_api.World.External.{Environment}
use build_api.World.Effect.{World, Action, ◌>>=◌, pure}
use build_api.Auth.Context.{Context}
use build_api.Auth.Middleware.{unary_server_interceptor}
use build_api.Templates.Service.{
  list_templates, get_template, create_template, update_template, delete_template,
}

pub data TemplateCall : Type 0 where
  list : String → TemplateCall
  get delete : TemplateName → TemplateCall
  create update : TemplateRequest → TemplateCall

pub data TemplateReply : Type 0 where
  templates : List BuilderTemplate → TemplateReply
  template : BuilderTemplate → TemplateReply
  deleted : TemplateReply

-- The method that a handler's `info` names.
abbrev pub template_method : TemplateCall → String
template_method (list ns) = list_templates_method
template_method (get req) = get_template_method
template_method (delete req) = delete_template_method
template_method (create req) = create_template_method
template_method (update req) = update_template_method

module _ {K Q : Type 0} (env : Environment K Q) where
  -- The `handler` closures, which call the service.
  unfoldable pub run_template_call : Context → TemplateCall → Action K TemplateReply
  run_template_call ctx (list ns) = do ts ← list_templates env ctx ns; pure (templates ts)
  run_template_call ctx (get req) = do t ← get_template env ctx req; pure (template t)
  run_template_call ctx (delete req) = do _ ← delete_template env ctx req; pure deleted
  run_template_call ctx (create req) = do t ← create_template env ctx req; pure (template t)
  run_template_call ctx (update req) = do t ← update_template env ctx req; pure (template t)

  -- The `_TemplateService_*_Handler` functions, with the interceptor that `main` installs.
  unfoldable pub serve_template_call : String → Context → TemplateCall → Action K TemplateReply
  serve_template_call secret ctx call =
      unary_server_interceptor env secret ctx call (template_method call) run_template_call
