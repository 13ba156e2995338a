-- ===== src/Builders/Rpc/Frame.antt =====
-- What a call of the builder service leaves alone.
use build_api.Common.{◌≡◌, refl, true, arith}
use build_api.World.External.{Environment}
use build_api.World.Effect.{World}
use build_api.Auth.Context.{Context}
use build_api.Auth.Scopes.{has_scope}
use build_api.Auth.Scopes.Table.{read_methods}
use build_api.Cluster.{ensure_org_namespace}
use build_api.Membership.Rows.{ensure_org_member-frame}
use build_api.Builders.Service.{
  list_builders, get_builder, create_builder, update_builder, delete_builder, wake_builder,
  health_check,
}
use build_api.Builders.Rpc.{
  BuilderCall, list, get, delete, wake, create, update, health, builder_method, run_builder_call,
}

module _ {K Q : Type 0} (env : Environment K Q) (ctx : Context) where
  -- No call of the service changes a table.
  pub run_builder_call-db :
      (call : BuilderCall) (w : World K) → (run_builder_call env ctx call w).1.db ≡ w.db
  unfolding run_builder_call list_builders get_builder create_builder update_builder delete_builder
      wake_builder health_check ensure_org_namespace
  run_builder_call-db (list ns) w = ground (arith, ensure_org_member-frame env ctx ns w)
  run_builder_call-db (get req) w = ground (arith, ensure_org_member-frame env ctx req.namespace w)
  run_builder_call-db (delete req) w =
      ground (arith, ensure_org_member-frame env ctx req.namespace w)
  run_builder_call-db (wake req) w = ground (arith, ensure_org_member-frame env ctx req.namespace w)
  run_builder_call-db (create req) w =
      ground (arith, ensure_org_member-frame env ctx req.namespace w)
  run_builder_call-db (update req) w =
      ground (arith, ensure_org_member-frame env ctx req.namespace w)
  run_builder_call-db health w = refl

  -- A call that only reads changes nothing in the cluster.
  pub run_builder_call-reads :
      (call : BuilderCall) (w : World K)
      → has_scope read_methods (builder_method call) ≡ true
      → (run_builder_call env ctx call w).1.cluster ≡ w.cluster
  unfolding run_builder_call list_builders get_builder has_scope
  run_builder_call-reads (list ns) w h = ground (arith, ensure_org_member-frame env ctx ns w)
  run_builder_call-reads (get req) w h =
      ground (arith, ensure_org_member-frame env ctx req.namespace w)
  run_builder_call-reads (delete req) w h = cc
  run_builder_call-reads (wake req) w h = cc
  run_builder_call-reads (create req) w h = cc
  run_builder_call-reads (update req) w h = cc
  run_builder_call-reads health w h = cc
