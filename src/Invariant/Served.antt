-- ===== src/Invariant/Served.antt =====
-- What a call of the server does to the tables.
use build_api.Common.{ℕ, ◌≤◌, arith, String, ap, subst, sym}
use build_api.World.Tables.{Db}
use build_api.World.External.{Environment}
use build_api.World.Effect.{World, state-wrap}
use build_api.Auth.Context.{Context, with_principal}
use build_api.Builders.Rpc.{run_builder_call}
use build_api.Builders.Rpc.Frame.{run_builder_call-db}
use build_api.Organizations.Rpc.{run_organization_call}
use build_api.Templates.Rpc.{run_template_call}
use build_api.Templates.Rpc.Frame.{run_template_call-db}
use build_api.Auth.Rpc.{run_auth_call}
use build_api.Server.{
  ServerCall, auth_call, builder_call, organization_call, template_call, server_method, run_call,
  serve_call,
}
use build_api.Server.Steps.{Admitted-step}
use build_api.Server.Passing.{interceptor-admitted, serve_call-interceptor}
use build_api.Invariant.Runs.{Statement, on_organizations}
use build_api.Invariant.Handlers.{authenticate-closed}
use build_api.Invariant.Calls.{run_organization_call-closed, run_auth_call-closed}

module _ {K Q : Type 0} (env : Environment K Q) (secret : String) (P : Db → Type 0) (from : ℕ)
    (closed : (a b : Db) → P a → Statement env from a b → P b) where
  abbrev Holds : World K → Type 0
  Holds w = P w.db

  -- A property of the tables that every statement preserves holds after each service.
  run_call-closed :
      (ctx : Context) (c : ServerCall) (w : World K)
      → P w.db
      → from ≤ w.step
      → P (run_call env secret ctx c w).1.db
  unfolding run_call
  run_call-closed ctx (auth_call c) w h late =
      subst Holds (sym (state-wrap (run_auth_call env secret ctx c) _ w))
        (run_auth_call-closed env w P h from closed late secret ctx c)
  run_call-closed ctx (builder_call c) w h late =
      subst Holds (sym (state-wrap (run_builder_call env ctx c) _ w))
        (subst P (sym (run_builder_call-db env ctx c w)) h)
  run_call-closed ctx (organization_call c) w h late =
      subst Holds (sym (state-wrap (run_organization_call env ctx c) _ w)) (
        run_organization_call-closed env w P h
          (λ a b before s. closed a b before (on_organizations a b s)) ctx c)
  run_call-closed ctx (template_call c) w h late =
      subst Holds (sym (state-wrap (run_template_call env ctx c) _ w))
        (subst P (sym (run_template_call-db env ctx c w)) h)

  -- And so it does after each call of the server.
  pub serve_call-closed :
      (ctx : Context) (c : ServerCall) (w : World K)
      → P w.db
      → from ≤ w.step
      → P (serve_call env secret ctx c w).1.db
  serve_call-closed ctx c w h late =
      subst Holds (sym (ap (λ r. r.1) (serve_call-interceptor env secret ctx c w))) (
        interceptor-admitted env secret ctx c (server_method c) (run_call env secret) w Holds h
          (authenticate-closed env secret ctx w P from closed h)
          (λ free. run_call-closed ctx c w h late)
          (λ p w' admitted before.
            run_call-closed (with_principal ctx p) c w' before
              (later late (Admitted-step env secret ctx _ w p w' admitted))))
    where
      later : {a b : ℕ} → from ≤ a → a ≤ b → from ≤ b
      later h k = omega arith
