-- ===== src/Builders/Service.antt =====
-- The handlers of internal/server/handlers.go. Log lines are left out.
use build_api.Common.{
  String, ◌==◌, Option, none, some, List, [], ◌∷◌, Result, ok, err, map, if◌then◌else◌,
}
use build_api.Common.Int.{pos}
use build_api.Status.{Status, status_error, status_errorf, invalid_argument, not_found, internal}
use build_api.Api.BuilderMessages.{Builder, BuilderRequest, BuilderName}
use build_api.World.External.{Environment, KubeError, BuilderCr, BuilderCrStatus}
use build_api.World.Effect.{Action, ◌>>=◌, ◌>>◌, pure, fail_if, or_fail, run_kube, gets}
use build_api.Auth.Context.{Context}
use build_api.Cluster.{ensure_org_namespace, unless_missing}
use build_api.Membership.{ensure_org_member}
use build_api.Builders.Convert.{cr_to_proto, proto_spec_to_cr}

abbrev invalid : String → Status
invalid = status_error invalid_argument

abbrev internal_error : String → KubeError → Status
internal_error label e = status_errorf internal label e.text

-- `if ctrl.IgnoreNotFound(err) != nil { return Internal }; return NotFound`
abbrev missing_or_internal : KubeError → Status
missing_or_internal e =
    if e.is_not_found
    then status_error not_found "builder not found"
    else internal_error "get builder" e

abbrev error_of : Option KubeError → Result KubeError (Unit {0})
error_of none = ok tt
error_of (some e) = err e

-- `req.Spec`, or the error where it is nil.
abbrev given {ℓ} : {A : Type ℓ} → Option A → Result (Unit {0}) A
given none = err tt
given (some a) = ok a

abbrev pub last_used_annotation : String
last_used_annotation = "builder.builder-hub.dev/last-used"

-- `m[k] = v`
unfoldable pub put : String → String → List (String × String) → List (String × String)
put k v [] = (k, v) ∷ []
put k v ((j, u) ∷ m) = if j == k then (k, v) ∷ m else (j, u) ∷ put k v m

abbrev entries : Option (List (String × String)) → List (String × String)
entries none = []
entries (some m) = m

-- The deep copy of `WakeBuilder` with its new annotation.
unfoldable pub woken : String → BuilderCr → BuilderCr
woken time b = record b {
  annotations = some (put last_used_annotation time (entries b.annotations));
}

abbrev pub no_status : BuilderCrStatus
no_status = record { endpoint = ""; node_port = pos 0; phase = "" }

module _ {K Q : Type 0} (env : Environment K Q) where
  -- `s.k8s.Get`, and the two errors that follow it.
  abbrev pub fetch : String → String → Action K BuilderCr
  fetch namespace name = do
    found ← gets (λ w. env.kube.get_builder namespace name w.cluster)
    or_fail found missing_or_internal

  -- `ListBuilders`; the namespace is not empty after `ensureOrgMember`.
  unfoldable pub list_builders : Context → String → Action K (List Builder)
  list_builders ctx namespace = do
    ensure_org_member env ctx namespace
    found ← gets (λ w. env.kube.list_builders namespace w.cluster)
    items ← or_fail found (internal_error "list builders")
    pure (map cr_to_proto items)

  -- `GetBuilder`
  unfoldable pub get_builder : Context → BuilderName → Action K Builder
  get_builder ctx req = do
    ensure_org_member env ctx req.namespace
    fail_if (req.name == "") (invalid "name is required")
    b ← fetch req.namespace req.name
    pure (cr_to_proto b)

  -- `CreateBuilder`
  unfoldable pub create_builder : Context → BuilderRequest → Action K Builder
  create_builder ctx req = do
    ensure_org_member env ctx req.namespace
    ensured ← ensure_org_namespace env req.namespace
    or_fail (error_of ensured) (internal_error "ensure namespace")
    fail_if (req.name == "") (invalid "name is required")
    spec ← or_fail (given req.spec) (λ _. invalid "spec is required")
    fail_if (spec.template_ref == "") (invalid "spec.template_ref is required")
    let b : BuilderCr = record {
      namespace = req.namespace;
      name = req.name;
      annotations = none;
      spec = proto_spec_to_cr spec;
      status = no_status;
    }
    created ← run_kube (env.kube.create_builder b)
    b' ← or_fail created (internal_error "create builder")
    pure (cr_to_proto b')

  -- `UpdateBuilder`
  unfoldable pub update_builder : Context → BuilderRequest → Action K Builder
  update_builder ctx req = do
    ensure_org_member env ctx req.namespace
    fail_if (req.name == "") (invalid "name is required")
    spec ← or_fail (given req.spec) (λ _. invalid "spec is required")
    b ← fetch req.namespace req.name
    updated ← run_kube (env.kube.update_builder (record b { spec = proto_spec_to_cr spec }))
    b' ← or_fail updated (internal_error "update builder")
    pure (cr_to_proto b')

  -- `DeleteBuilder`
  unfoldable pub delete_builder : Context → BuilderName → Action K (Unit {0})
  delete_builder ctx req = do
    ensure_org_member env ctx req.namespace
    fail_if (req.name == "") (invalid "name is required")
    e ← run_kube (env.kube.delete_builder req.namespace req.name)
    or_fail (error_of (unless_missing e)) (internal_error "delete builder")

  -- `WakeBuilder`
  unfoldable pub wake_builder : Context → BuilderName → Action K Builder
  wake_builder ctx req = do
    ensure_org_member env ctx req.namespace
    fail_if (req.name == "") (invalid "name is required")
    b ← fetch req.namespace req.name
    now ← gets (λ w. w.now)
    patched ← run_kube (env.kube.patch_builder b (woken (env.rfc3339 now) b))
    b' ← or_fail patched (internal_error "wake builder")
    pure (cr_to_proto b')

-- `HealthCheck`
unfoldable pub health_check : {K : Type 0} → Context → Action K String
health_check ctx = pure "ok"
