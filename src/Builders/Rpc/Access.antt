-- ===== src/Builders/Rpc/Access.antt =====
-- Who can reach the builders.
use build_api.Common.{
  String, ◌≡◌, refl, false, Option, none, some, ok, err, arith, Result-cases, inl, inr,
}
use build_api.Status.{Status}
use build_api.World.External.{Environment}
use build_api.World.Effect.{World}
use build_api.Auth.Context.{Context, Principal, with_principal}
use build_api.Auth.Scopes.{has_scope, public_methods}
use build_api.Auth.Middleware.Gate.{Admitted, unary_server_interceptor-gate}
use build_api.Membership.{ensure_org_member}
use build_api.Membership.Rows.{IsMember, ensure_org_member-IsMember, ensure_org_member-frame}
use build_api.Builders.Service.{
  list_builders, get_builder, create_builder, update_builder, delete_builder, wake_builder,
}
use build_api.Builders.Rpc.{
  BuilderCall, list, get, delete, wake, create, update, health, BuilderReply, builder_method,
  run_builder_call, serve_builder_call,
}

-- The namespace that a call names, none for the health check.
abbrev pub namespace_of : BuilderCall → Option String
namespace_of (list ns) = some ns
namespace_of (get req) = some req.namespace
namespace_of (delete req) = some req.namespace
namespace_of (wake req) = some req.namespace
namespace_of (create req) = some req.namespace
namespace_of (update req) = some req.namespace
namespace_of health = none

module _ {K Q : Type 0} (env : Environment K Q) where
  -- Where the membership check fails, a call fails with the check's status, and neither the tables
  -- nor the cluster change.
  pub run_builder_call-outsider :
      (ctx : Context) (call : BuilderCall) (namespace : String) (s : Status) (w : World K)
      → namespace_of call ≡ some namespace
      → (ensure_org_member env ctx namespace w).0 ≡ err s
      → ((run_builder_call env ctx call w).0 ≡ err s)
        × ((run_builder_call env ctx call w).1.db ≡ w.db)
        × ((run_builder_call env ctx call w).1.cluster ≡ w.cluster)
  unfolding run_builder_call list_builders get_builder create_builder update_builder delete_builder
      wake_builder
  run_builder_call-outsider ctx health namespace s w names refused = absurd (ground arith)
  run_builder_call-outsider ctx _ namespace s w names refused =
      ground (arith, ensure_org_member-frame env ctx namespace w)

module _ {K Q : Type 0} (env : Environment K Q) (secret : String) where
  pub builder_call-protected :
      (call : BuilderCall) (namespace : String)
      → namespace_of call ≡ some namespace
      → has_scope public_methods (builder_method call) ≡ false
  unfolding has_scope
  builder_call-protected health namespace names = absurd (ground arith)
  builder_call-protected (list ns) namespace names = refl
  builder_call-protected _ namespace names = refl

  -- A call on a namespace that succeeds carried a token of an identity that may call its method,
  -- and the identity's user was a member of the organization when the handler began.
  pub serve_builder_call-IsMember :
      (ctx : Context) (call : BuilderCall) (namespace : String) (w : World K) (r : BuilderReply)
      → namespace_of call ≡ some namespace
      → (serve_builder_call env secret ctx call w).0 ≡ ok r
      → (p : Principal) × (w' : World K) × Admitted env secret ctx (builder_method call) w p w'
        × IsMember env (with_principal ctx p) namespace w'
  unfolding serve_builder_call
  serve_builder_call-IsMember ctx call namespace w r names answered =
      elim (unary_server_interceptor-gate env secret ctx call (builder_method call)
        (run_builder_call env) (run_builder_call env) w
        (builder_call-protected call namespace names)) [
          | inl (s, w', _, refused, _) ↦ absurd (ground arith)
          | inr (p, w', admitted, ran) ↦
              elim (Result-cases (ensure_org_member env (with_principal ctx p) namespace w').0) [
                | inl (_, member) ↦ (
                  p,
                  w',
                  admitted,
                  ensure_org_member-IsMember env (with_principal ctx p) namespace w' (ground arith),
                )
                | inr (s, outsider) ↦
                    let (failed, _, _) =
                      run_builder_call-outsider env (with_principal ctx p) call namespace s w' names
                        outsider in
                    absurd (ground arith)
              ]
        ]
