-- ===== src/Templates/Rpc/Frame.antt =====
-- What a call of the template service leaves alone.
use build_api.Common.{◌≡◌, true, arith}
use build_api.World.External.{Environment}
use build_api.World.Effect.{World}
use build_api.Auth.Context.{Context}
use build_api.Auth.Scopes.{has_scope}
use build_api.Auth.Scopes.Table.{read_methods}
use build_api.Membership.Rows.{ensure_org_member-frame}
use build_api.Templates.Service.{
  list_templates, get_template, create_template, update_template, delete_template,
}
use build_api.Templates.Rpc.{
  TemplateCall, list, get, delete, create, update, template_method, run_template_call,
}

module _ {K Q : Type 0} (env : Environment K Q) (ctx : Context) where
  -- No call of the service changes a table.
  pub run_template_call-db :
      (call : TemplateCall) (w : World K) → (run_template_call env ctx call w).1.db ≡ w.db
  unfolding run_template_call list_templates get_template create_template update_template
      delete_template
  run_template_call-db (list ns) w = ground (arith, ensure_org_member-frame env ctx ns w)
  run_template_call-db (get req) w = ground (arith, ensure_org_member-frame env ctx req.namespace w)
  run_template_call-db (delete req) w =
      ground (arith, ensure_org_member-frame env ctx req.namespace w)
  run_template_call-db (create req) w =
      ground (arith, ensure_org_member-frame env ctx req.namespace w)
  run_template_call-db (update req) w =
      ground (arith, ensure_org_member-frame env ctx req.namespace w)

  -- A call that only reads changes nothing in the cluster.
  pub run_template_call-reads :
      (call : TemplateCall) (w : World K)
      → has_scope read_methods (template_method call) ≡ true
      → (run_template_call env ctx call w).1.cluster ≡ w.cluster
  unfolding run_template_call list_templates get_template has_scope
  run_template_call-reads (list ns) w h = ground (arith, ensure_org_member-frame env ctx ns w)
  run_template_call-reads (get req) w h =
      ground (arith, ensure_org_member-frame env ctx req.namespace w)
  run_template_call-reads (delete req) w h = cc
  run_template_call-reads (create req) w h = cc
  run_template_call-reads (update req) w h = cc
