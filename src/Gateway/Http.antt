-- ===== src/Gateway/Http.antt =====
-- The HTTP server of cmd/server/main.go: the CORS handler around the root mux, whose last route is the
-- mux of the gateway with the routes of the four services. The gateway's clients call the gRPC server
-- of the same program, with the context that the gateway made.
pub mod Serving
use build_api.Common.{ℕ, String, Option, none, some, List, ◌++◌, map}
use build_api.Common.Lists.{get_elem?}
use build_api.World.External.{Environment}
use build_api.World.Effect.{World}
use build_api.Auth.Rpc.{serve_auth_call}
use build_api.Builders.Rpc.{BuilderReply, serve_builder_call}
use build_api.Organizations.Rpc.{OrganizationReply, serve_organization_call}
use build_api.Templates.Rpc.{TemplateReply, serve_template_call}
use build_api.Gateway.Edge.{
  HttpRequest, HttpResponse, HttpHandler, ProtoMessage, other_message, cors_handler, root_mux,
}
use build_api.Gateway.Login.{auth_message}
use build_api.Gateway.Runtime.{Runtime, PathParams, Pattern, Route, serve_route}
use build_api.Gateway.AuthProxy.{register_auth_service_handler_client}
use build_api.Gateway.BuilderProxy.{register_build_api_handler_client}
use build_api.Gateway.OrganizationProxy.{register_organization_service_handler_client}
use build_api.Gateway.TemplateProxy.{register_template_service_handler_client}

-- `runtime.ServeMux`: which of the registered methods and patterns a request is for, with the
-- parameters of its path, and what it answers where there is none.
pub record ServeMux : Type 0 where
  pub dispatch : List (String × Pattern) → HttpRequest → Option (ℕ × PathParams)
  pub unmatched : HttpRequest → HttpResponse → HttpResponse

-- One call of `mux.Handle`.
pub record Endpoint (K : Type 0) : Type 0 where
  pub http_method : String
  pub pattern : Pattern
  pub handle : HttpRequest → PathParams → HttpResponse → World K → HttpResponse × World K

abbrev pub builder_message : BuilderReply → ProtoMessage
builder_message r = other_message

abbrev pub organization_message : OrganizationReply → ProtoMessage
organization_message r = other_message

abbrev pub template_message : TemplateReply → ProtoMessage
template_message r = other_message

abbrev pub endpoint :
    {K Reply : Type 0} → Runtime → (Reply → ProtoMessage) → Route K Reply → Endpoint K
endpoint rt message route = record {
  http_method = route.http_method;
  pattern = route.pattern;
  handle = serve_route rt message route;
}

module _ {K Q : Type 0} (env : Environment K Q) (secret : String) (rt : Runtime) where
  -- What `main` registers on the mux of the gateway, in its order.
  abbrev pub endpoints : List (Endpoint K)
  endpoints =
      map (endpoint rt auth_message)
        (register_auth_service_handler_client rt (serve_auth_call env secret))
      ++ map (endpoint rt builder_message)
          (register_build_api_handler_client rt (serve_builder_call env secret))
      ++ map (endpoint rt organization_message)
          (register_organization_service_handler_client rt (serve_organization_call env secret))
      ++ map (endpoint rt template_message)
          (register_template_service_handler_client rt (serve_template_call env secret))

  module _ (mux : ServeMux) where
    abbrev serve_endpoint : Option (Endpoint K) → PathParams → HttpHandler (World K)
    serve_endpoint none params r w world = (mux.unmatched r w, world)
    serve_endpoint (some e) params r w world = e.handle r params w world

    abbrev serve_match : Option (ℕ × PathParams) → HttpHandler (World K)
    serve_match none r w world = (mux.unmatched r w, world)
    serve_match (some (i, params)) r w world =
        serve_endpoint (get_elem? endpoints i) params r w world

    -- `gwMux`
    unfoldable pub gw_mux : HttpHandler (World K)
    gw_mux r w world =
        serve_match (mux.dispatch (map (λ e. (e.http_method, e.pattern)) endpoints) r) r w world

    -- The handler of `httpServer`
    unfoldable pub http_server : List String → HttpHandler (World K)
    http_server cors_origins = cors_handler (root_mux gw_mux) cors_origins
