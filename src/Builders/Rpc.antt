-- ===== src/Builders/Rpc.antt =====
-- The service `BuildAPI` as the server dispatches it: api/gen/buildapi/v1/buildapi_grpc.pb.go, where
-- each handler calls the interceptor with the method's full name and the service's method.
pub mod Access
pub mod Frame
pub mod Isolation
use build_api.Common.{String, List, Option}
use build_api.Api.BuilderMessages.{Builder, BuilderRequest, BuilderName}
use build_api.Api.Methods.{
  list_builders_method, get_builder_method, create_builder_method, update_builder_method,
  delete_builder_method, wake_builder_method, health_check_method,
}
use build_api.World.External.{Environment}
use build_api.World.Effect.{World, Action, ◌>>=◌, pure}
use build_api.Auth.Context.{Context}
use build_api.Auth.Middleware.{unary_server_interceptor}
use build_api.Builders.Service.{
  list_builders, get_builder, create_builder, update_builder, delete_builder, wake_builder,
  health_check,
}

-- A decoded request of the service.
pub data BuilderCall : Type 0 where
  list : String → BuilderCall
  get delete wake : BuilderName → BuilderCall
  create update : BuilderRequest → BuilderCall
  health : BuilderCall

pub data BuilderReply : Type 0 where
  builders : List Builder → BuilderReply
  builder : Builder → BuilderReply
  deleted : BuilderReply
  healthy : String → BuilderReply

-- The method that a handler's `info` names.
abbrev pub builder_method : BuilderCall → String
builder_method (list ns) = list_builders_method
builder_method (get req) = get_builder_method
builder_method (delete req) = delete_builder_method
builder_method (wake req) = wake_builder_method
builder_method (create req) = create_builder_method
builder_method (update req) = update_builder_method
builder_method health = health_check_method

module _ {K Q : Type 0} (env : Environment K Q) where
  -- The `handler` closures, which call the service.
  unfoldable pub run_builder_call : Context → BuilderCall → Action K BuilderReply
  run_builder_call ctx (list ns) = do bs ← list_builders env ctx ns; pure (builders bs)
  run_builder_call ctx (get req) = do b ← get_builder env ctx req; pure (builder b)
  run_builder_call ctx (delete req) = do _ ← delete_builder env ctx req; pure deleted
  run_builder_call ctx (wake req) = do b ← wake_builder env ctx req; pure (builder b)
  run_builder_call ctx (create req) = do b ← create_builder env ctx req; pure (builder b)
  run_builder_call ctx (update req) = do b ← update_builder env ctx req; pure (builder b)
  run_builder_call ctx health = do s ← health_check ctx; pure (healthy s)

  -- The `_BuildAPI_*_Handler` functions, with the interceptor that `main` installs.
  unfoldable pub serve_builder_call : String → Context → BuilderCall → Action K BuilderReply
  serve_builder_call secret ctx call =
      unary_server_interceptor env secret ctx call (builder_method call) run_builder_call
