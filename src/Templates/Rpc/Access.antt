-- ===== src/Templates/Rpc/Access.antt =====
-- Who can reach the templates.
use build_api.Common.{String, ◌≡◌, refl, false, ok, err, arith, Result-cases, inl, inr}
use build_api.Status.{Status}
use build_api.World.External.{Environment}
use build_api.World.Effect.{World}
use build_api.Auth.Context.{Context, Principal, with_principal}
use build_api.Auth.Scopes.{has_scope, public_methods}
use build_api.Auth.Middleware.Gate.{Admitted, unary_server_interceptor-gate}
use build_api.Membership.{ensure_org_member}
use build_api.Membership.Rows.{IsMember, ensure_org_member-IsMember, ensure_org_member-frame}
use build_api.Templates.Service.{
  list_templates, get_template, create_template, update_template, delete_template,
}
use build_api.Templates.Rpc.{
  TemplateCall, list, get, delete, create, update, TemplateReply, template_method,
  run_template_call, serve_template_call,
}

-- The namespace that a call names.
abbrev pub namespace_of : TemplateCall → String
namespace_of (list ns) = ns
namespace_of (get req) = req.namespace
namespace_of (delete req) = req.namespace
namespace_of (create req) = req.namespace
namespace_of (update req) = req.namespace

module _ {K Q : Type 0} (env : Environment K Q) where
  -- Where the membership check fails, a call fails with the check's status, and neither the tables
  -- nor the cluster change.
  pub run_template_call-outsider :
      (ctx : Context) (call : TemplateCall) (namespace : String) (s : Status) (w : World K)
      → namespace_of call ≡ namespace
      → (ensure_org_member env ctx namespace w).0 ≡ err s
      → ((run_template_call env ctx call w).0 ≡ err s)
        × ((run_template_call env ctx call w).1.db ≡ w.db)
        × ((run_template_call env ctx call w).1.cluster ≡ w.cluster)
  unfolding run_template_call list_templates get_template create_template update_template
      delete_template
  run_template_call-outsider ctx (list ns) namespace s w names refused =
      ground (arith, ensure_org_member-frame env ctx namespace w)
  run_template_call-outsider ctx _ namespace s w names refused =
      ground (arith, ensure_org_member-frame env ctx namespace w)

module _ {K Q : Type 0} (env : Environment K Q) (secret : String) where
  pub template_call-protected :
      (call : TemplateCall) (namespace : String)
      → namespace_of call ≡ namespace
      → has_scope public_methods (template_method call) ≡ false
  unfolding has_scope
  template_call-protected (list ns) namespace names = refl
  template_call-protected _ namespace names = refl

  -- A call on a namespace that succeeds carried a token of an identity that may call its method,
  -- and the identity's user was a member of the organization when the handler began.
  pub serve_template_call-IsMember :
      (ctx : Context) (call : TemplateCall) (namespace : String) (w : World K) (r : TemplateReply)
      → namespace_of call ≡ namespace
      → (serve_template_call env secret ctx call w).0 ≡ ok r
      → (p : Principal) × (w' : World K) × Admitted env secret ctx (template_method call) w p w'
        × IsMember env (with_principal ctx p) namespace w'
  unfolding serve_template_call
  serve_template_call-IsMember ctx call namespace w r names answered =
      elim (unary_server_interceptor-gate env secret ctx call (template_method call)
        (run_template_call env) (run_template_call env) w
        (template_call-protected call namespace names)) [
          | inl (s, w', _, refused, _) ↦ absurd (ground arith)
          | inr (p, w', admitted, ran) ↦
              elim (Result-cases (ensure_org_member env (with_principal ctx p) namespace w').0) [
                | inl (_, member) ↦ (
                  p,
                  w',
                  admitted,
                  ensure_org_member-IsMember env (with_principal ctx p) namespace w' (ground arith),
                )
                | inr (s, outsider) ↦
                    let (failed, _, _) =
                      run_template_call-outsider env (with_principal ctx p) call namespace s w'
                        names outsider in
                    absurd (ground arith)
              ]
        ]
