-- ===== src/Organizations/Rpc/Access.antt =====
-- Who can change an organization.
use build_api.Common.{String, ◌≡◌, inl, inr, refl, false, ok, arith, Result-cases, sym, ◌∙◌, ap}
use build_api.World.External.{Environment}
use build_api.World.Effect.{World}
use build_api.Auth.Context.{Context, Principal, with_principal}
use build_api.Auth.Scopes.{has_scope, public_methods}
use build_api.Auth.Middleware.Gate.{Admitted, unary_server_interceptor-gate}
use build_api.Api.Methods.{delete_organization_method}
use build_api.Organizations.Service.Deletion.{without_org, delete_organization-ok}
use build_api.Organizations.Service.Roles.{HasRole}
use build_api.Organizations.Service.{delete_organization}
use build_api.Organizations.Rpc.{
  OrganizationCall, OrganizationReply, organization_method, run_organization_call,
  serve_organization_call,
}

module _ {K Q : Type 0} (env : Environment K Q) (secret : String) where
  pub organization_call-protected :
      (call : OrganizationCall) → has_scope public_methods (organization_method call) ≡ false
  unfolding has_scope
  organization_call-protected OrganizationCall.list = refl
  organization_call-protected (OrganizationCall.get id) = refl
  organization_call-protected (OrganizationCall.create req) = refl
  organization_call-protected (OrganizationCall.update req) = refl
  organization_call-protected (OrganizationCall.delete id) = refl
  organization_call-protected (OrganizationCall.members id) = refl

  -- An answered call of the service ran its handler for an admitted identity.
  pub serve_organization_call-Admitted :
      (ctx : Context) (call : OrganizationCall) (w : World K) (r : OrganizationReply)
      → (serve_organization_call env secret ctx call w).0 ≡ ok r
      → (p : Principal) × (w' : World K) × Admitted env secret ctx (organization_method call) w p w'
        × (serve_organization_call env secret ctx call w
            ≡ run_organization_call env (with_principal ctx p) call w')
  unfolding serve_organization_call
  serve_organization_call-Admitted ctx call w r answered =
      elim (unary_server_interceptor-gate env secret ctx call (organization_method call)
        (run_organization_call env) (run_organization_call env) w
        (organization_call-protected call)) [
          | inl (s, w', _, refused, _) ↦ absurd (ground arith)
          | inr (p, w', admitted, ran) ↦ (p, w', admitted, ran)
        ]

  run_delete :
      (ctx : Context) (id : String) (w : World K) (r : OrganizationReply)
      → (run_organization_call env ctx (OrganizationCall.delete id) w).0 ≡ ok r
      → ((delete_organization env ctx id w).0 ≡ ok tt)
        × ((run_organization_call env ctx (OrganizationCall.delete id) w).1
            ≡ (delete_organization env ctx id w).1)
  unfolding run_organization_call
  run_delete ctx id w r answered = elim (Result-cases (delete_organization env ctx id w).0) [
    | inl (u, done) ↦ (done, ground arith)
    | inr (s, failed) ↦ absurd (ground arith)
  ]

  -- A call to delete an organization that is answered carried a token of an identity that may
  -- call `DeleteOrganization`, the identity's user owned the organization when the handler began,
  -- and the tables after the call are those before the handler without the organization and its
  -- memberships.
  pub serve_organization_call-deleted :
      (ctx : Context) (id : String) (w : World K) (r : OrganizationReply)
      → (serve_organization_call env secret ctx (OrganizationCall.delete id) w).0 ≡ ok r
      → (p : Principal) × (w' : World K) × Admitted env secret ctx delete_organization_method w p w'
        × HasRole env (with_principal ctx p) id "owner" w'
        × ((oid : String) × (env.pg.uuid_in id ≡ ok oid)
            × ((serve_organization_call env secret ctx (OrganizationCall.delete id) w).1.db
                ≡ without_org oid w'.db))
  serve_organization_call-deleted ctx id w r answered =
      let (p, w', admitted, ran) =
        serve_organization_call-Admitted ctx (OrganizationCall.delete id) w r answered in
      let (done, same) =
        run_delete (with_principal ctx p) id w' r (sym (ap (λ x. x.0) ran) ∙ answered) in
      let (owner, (oid, known, left)) =
        delete_organization-ok env (with_principal ctx p) id w' done in
      (p, w', admitted, owner, (oid, known, ap (λ x. x.1.db) ran ∙ ap (λ v. v.db) same ∙ left))
