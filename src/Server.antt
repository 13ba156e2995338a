-- ===== src/Server.antt =====
-- The server of cmd/server/main.go: the four services that `main` registers on one gRPC server, with
-- one interceptor, and one state for all of them.
pub mod Passing
pub mod ReadOnly
pub mod Escalation
pub mod Isolation
pub mod Members
pub mod Steps
pub mod Refused
use build_api.Common.{String}
use build_api.World.External.{Environment}
use build_api.World.Effect.{Action, ◌>>=◌, pure}
use build_api.Auth.Context.{Context}
use build_api.Auth.Rpc.{AuthCall, AuthReply, auth_method, run_auth_call, serve_auth_call}
use build_api.Builders.Rpc.{
  BuilderCall, BuilderReply, builder_method, run_builder_call, serve_builder_call,
}
use build_api.Organizations.Rpc.{
  OrganizationCall, OrganizationReply, organization_method, run_organization_call,
  serve_organization_call,
}
use build_api.Templates.Rpc.{
  TemplateCall, TemplateReply, template_method, run_template_call, serve_template_call,
}

-- A decoded request of one of the services.
pub data ServerCall : Type 0 where
  auth_call : AuthCall → ServerCall
  builder_call : BuilderCall → ServerCall
  organization_call : OrganizationCall → ServerCall
  template_call : TemplateCall → ServerCall

pub data ServerReply : Type 0 where
  auth_reply : AuthReply → ServerReply
  builder_reply : BuilderReply → ServerReply
  organization_reply : OrganizationReply → ServerReply
  template_reply : TemplateReply → ServerReply

-- The full method name of a call.
abbrev pub server_method : ServerCall → String
server_method (auth_call c) = auth_method c
server_method (builder_call c) = builder_method c
server_method (organization_call c) = organization_method c
server_method (template_call c) = template_method c

module _ {K Q : Type 0} (env : Environment K Q) (secret : String) where
  -- What the service of a call does with it once it has passed the interceptor.
  unfoldable pub run_call : Context → ServerCall → Action K ServerReply
  run_call ctx (auth_call c) = do r ← run_auth_call env secret ctx c; pure (auth_reply r)
  run_call ctx (builder_call c) = do r ← run_builder_call env ctx c; pure (builder_reply r)
  run_call ctx (organization_call c) = do
    r ← run_organization_call env ctx c
    pure (organization_reply r)
  run_call ctx (template_call c) = do r ← run_template_call env ctx c; pure (template_reply r)

  -- One call of the server.
  unfoldable pub serve_call : Context → ServerCall → Action K ServerReply
  serve_call ctx (auth_call c) = do r ← serve_auth_call env secret ctx c; pure (auth_reply r)
  serve_call ctx (builder_call c) = do
    r ← serve_builder_call env secret ctx c
    pure (builder_reply r)
  serve_call ctx (organization_call c) = do
    r ← serve_organization_call env secret ctx c
    pure (organization_reply r)
  serve_call ctx (template_call c) = do
    r ← serve_template_call env secret ctx c
    pure (template_reply r)
