-- ===== src/Server/Members.antt =====
-- Tenants: whom the server answers about an organization and what is in its namespace.
use build_api.Common.{
  String, ◌≡◌, ◌∙◌, ap, sym, Option, some, none, ok, arith, Result-cases, inl, inr,
}
use mathlib.Core.Option.{some-injective}
use build_api.World.External.{Environment}
use build_api.World.Effect.{World}
use build_api.Auth.Context.{Context, Principal, with_principal}
use build_api.Auth.Middleware.Gate.{Admitted}
use build_api.Builders.Rpc.{serve_builder_call}
use build_api.Builders.Rpc.Access.{namespace_of, serve_builder_call-IsMember}
use build_api.Membership.Rows.{IsMember}
use build_api.Organizations.Rpc.{serve_organization_call}
use build_api.Organizations.Rpc.Access.{serve_organization_call-Admitted}
use build_api.Organizations.Rpc.Members.{organization_of, run_organization_call-IsMember}
use build_api.Templates.Rpc.{serve_template_call}
use build_api.Templates.Rpc.Access as Templates
use build_api.Server.{
  ServerCall, auth_call, builder_call, organization_call, template_call, ServerReply, server_method,
  serve_call,
}

-- The organization that a call is about, none for an account, a listing of organizations, a creation
-- of one, and the health check.
abbrev pub tenant_of : ServerCall → Option String
tenant_of (auth_call c) = none
tenant_of (builder_call c) = namespace_of c
tenant_of (organization_call c) = organization_of c
tenant_of (template_call c) = some (Templates.namespace_of c)

module _ {K Q : Type 0} (env : Environment K Q) (secret : String) (ctx : Context)
    (w : World K) where
  -- The caller was let through and was a member when the handler began.
  abbrev pub ByMember : ServerCall → String → Type 0
  ByMember c ns =
      (p : Principal) × (w' : World K) × Admitted env secret ctx (server_method c) w p w'
      × IsMember env (with_principal ctx p) ns w'

  -- A call about an organization or what is in its namespace, reads included, that is answered without
  -- an error carried a token of an identity that may call its method and whose user was a member of the
  -- organization when the handler began.
  pub serve_call-IsMember :
      (c : ServerCall) (ns : String) (r : ServerReply)
      → tenant_of c ≡ some ns
      → (serve_call env secret ctx c w).0 ≡ ok r
      → ByMember c ns
  unfolding serve_call
  serve_call-IsMember (auth_call c) ns r names done = cc
  serve_call-IsMember (builder_call c) ns r names done =
      elim (Result-cases (serve_builder_call env secret ctx c w).0) [
        | inr (s, failed) ↦ absurd (ground arith)
        | inl (a, good) ↦ serve_builder_call-IsMember env secret ctx c ns w a names good
      ]
  serve_call-IsMember (template_call c) ns r names done =
      elim (Result-cases (serve_template_call env secret ctx c w).0) [
        | inr (s, failed) ↦ absurd (ground arith)
        | inl (a, good) ↦
            Templates.serve_template_call-IsMember env secret ctx c ns w a
              (some-injective (Templates.namespace_of c) ns names) good
      ]
  serve_call-IsMember (organization_call c) ns r names done =
      elim (Result-cases (serve_organization_call env secret ctx c w).0) [
        | inr (s, failed) ↦ absurd (ground arith)
        | inl (a, good) ↦
            let (p, w', admitted, ran) =
              serve_organization_call-Admitted env secret ctx c w a good in
            let handled = sym (ap (λ x. x.0) ran) ∙ good in
            (
              p,
              w',
              admitted,
              run_organization_call-IsMember env (with_principal ctx p) w' c ns a names handled,
            )
      ]
