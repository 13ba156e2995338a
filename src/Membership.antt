-- ===== src/Membership.antt =====
-- `ensureOrgMember`, which internal/server/handlers.go and internal/templates/service.go each have
-- with the same text.
pub mod Rows
use build_api.Common.{String, ◌==◌, Bool, not, Result}
use build_api.Status.{status_error, status_errorf, invalid_argument, permission_denied, internal}
use build_api.World.Tables.{DbError, db_error_text}
use build_api.World.External.{Environment}
use build_api.World.Effect.{World, Action, ◌>>=◌, ◌>>◌, fail_if, or_fail, run_sql}
use build_api.World.Sql.{select_is_member}
use build_api.Auth.Context.{Context, user_id_from_context}
use build_api.Auth.Service.{not_authenticated}

module _ {K Q : Type 0} (env : Environment K Q) where
  unfoldable pub ensure_org_member : Context → String → Action K (Unit {0})
  ensure_org_member ctx namespace = do
    let user_id = user_id_from_context ctx
    fail_if (user_id == "") not_authenticated
    fail_if (namespace == "") (status_error invalid_argument "namespace is required")
    checked ← run_sql env (select_is_member env.pg user_id namespace)
    exists ← or_fail checked (λ e. status_errorf internal "check org membership" (db_error_text e))
    fail_if (not exists) (status_error permission_denied "not a member of this organization")
