-- ===== src/Cluster.antt =====
-- internal/k8s: namespaces of organizations and the count of builders.
pub mod Isolation
use build_api.Common.{String, Option, none, some, List, [], ◌∷◌, Result, ok, err, if◌then◌else◌}
use build_api.Common.Int.{ℤ, to_int32}
use build_api.Common.Lists.{length}
use build_api.World.External.{Environment, KubeError, Namespace, BuilderCr}
use build_api.World.Effect.{Action, ◌>>=◌, pure, run_kube, gets}

-- `if apierrors.IsAlreadyExists(err) { return nil }; return err`
abbrev unless_exists : Option KubeError → Option KubeError
unless_exists none = none
unless_exists (some e) = if e.is_already_exists then none else some e

-- `if apierrors.IsNotFound(err) { return nil }; return err`
abbrev pub unless_missing : Option KubeError → Option KubeError
unless_missing none = none
unless_missing (some e) = if e.is_not_found then none else some e

abbrev pub org_namespace : String → Namespace
org_namespace org_id = record {
  name = org_id;
  labels =
      ("app.kubernetes.io/managed-by", "builderhub")
      ∷ ("builderhub.dev/organization-id", org_id)
      ∷ [];
}

abbrev count_or_error : Result KubeError (List BuilderCr) → Result KubeError ℤ
count_or_error (ok items) = ok (to_int32 (length items))
count_or_error (err e) = err e

module _ {K Q : Type 0} (env : Environment K Q) where
  -- `EnsureOrgNamespace`
  unfoldable pub ensure_org_namespace : String → Action K (Option KubeError)
  ensure_org_namespace org_id = do
    e ← run_kube (env.kube.create_namespace (org_namespace org_id))
    pure (unless_exists e)

  -- `DeleteOrgNamespace`
  unfoldable pub delete_org_namespace : String → Action K (Option KubeError)
  delete_org_namespace org_id = do
    e ← run_kube (env.kube.delete_namespace org_id)
    pure (unless_missing e)

  -- `CountBuildkitBuildersInNamespace`
  unfoldable pub count_builders : String → Action K (Result KubeError ℤ)
  count_builders namespace = gets (λ w. count_or_error (env.kube.list_builders namespace w.cluster))
