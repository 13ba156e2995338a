-- ===== src/Templates/Service.antt =====
-- The handlers of internal/templates/service.go. Log lines are left out.
use build_api.Common.{String, ◌==◌, Option, none, some, List, Result, ok, err, map, if◌then◌else◌}
use build_api.Status.{Status, status_error, status_errorf, invalid_argument, not_found, internal}
use build_api.Api.TemplateMessages.{BuilderTemplate, TemplateRequest, TemplateName}
use build_api.World.External.{Environment, KubeError, TemplateCr}
use build_api.World.Effect.{Action, ◌>>=◌, ◌>>◌, pure, fail_if, or_fail, run_kube, gets}
use build_api.Auth.Context.{Context}
use build_api.Cluster.{unless_missing}
use build_api.Membership.{ensure_org_member}
use build_api.Templates.Convert.{template_cr_to_proto, proto_spec_to_template_spec}

abbrev invalid : String → Status
invalid = status_error invalid_argument

abbrev internal_error : String → KubeError → Status
internal_error label e = status_errorf internal label e.text

abbrev missing_or_internal : KubeError → Status
missing_or_internal e =
    if e.is_not_found
    then status_error not_found "template not found"
    else internal_error "get template" e

abbrev error_of : Option KubeError → Result KubeError (Unit {0})
error_of none = ok tt
error_of (some e) = err e

abbrev given {ℓ} : {A : Type ℓ} → Option A → Result (Unit {0}) A
given none = err tt
given (some a) = ok a

module _ {K Q : Type 0} (env : Environment K Q) where
  -- `ensureOrgMember` of this package
  abbrev pub ensure_template_member : Context → String → Action K (Unit {0})
  ensure_template_member = ensure_org_member env

  -- `s.k8s.Get`, and the two errors that follow it.
  abbrev pub fetch : String → String → Action K (TemplateCr Q)
  fetch namespace name = do
    found ← gets (λ w. env.kube.get_template namespace name w.cluster)
    or_fail found missing_or_internal

  -- `ListTemplates`
  unfoldable pub list_templates : Context → String → Action K (List BuilderTemplate)
  list_templates ctx namespace = do
    ensure_template_member ctx namespace
    found ← gets (λ w. env.kube.list_templates namespace w.cluster)
    items ← or_fail found (internal_error "list templates")
    pure (map (template_cr_to_proto env) items)

  -- `GetTemplate`
  unfoldable pub get_template : Context → TemplateName → Action K BuilderTemplate
  get_template ctx req = do
    ensure_template_member ctx req.namespace
    fail_if (req.name == "") (invalid "name is required")
    t ← fetch req.namespace req.name
    pure (template_cr_to_proto env t)

  -- `CreateTemplate`
  unfoldable pub create_template : Context → TemplateRequest → Action K BuilderTemplate
  create_template ctx req = do
    ensure_template_member ctx req.namespace
    fail_if (req.name == "") (invalid "name is required")
    spec ← or_fail (given req.spec) (λ _. invalid "spec is required")
    let t : TemplateCr Q = record {
      namespace = req.namespace;
      name = req.name;
      spec = proto_spec_to_template_spec env spec;
    }
    created ← run_kube (env.kube.create_template t)
    t' ← or_fail created (internal_error "create template")
    pure (template_cr_to_proto env t')

  -- `UpdateTemplate`
  unfoldable pub update_template : Context → TemplateRequest → Action K BuilderTemplate
  update_template ctx req = do
    ensure_template_member ctx req.namespace
    fail_if (req.name == "") (invalid "name is required")
    spec ← or_fail (given req.spec) (λ _. invalid "spec is required")
    t ← fetch req.namespace req.name
    updated ←
        run_kube
          (env.kube.update_template (record t { spec = proto_spec_to_template_spec env spec }))
    t' ← or_fail updated (internal_error "update template")
    pure (template_cr_to_proto env t')

  -- `DeleteTemplate`
  unfoldable pub delete_template : Context → TemplateName → Action K (Unit {0})
  delete_template ctx req = do
    ensure_template_member ctx req.namespace
    fail_if (req.name == "") (invalid "name is required")
    e ← run_kube (env.kube.delete_template req.namespace req.name)
    or_fail (error_of (unless_missing e)) (internal_error "delete template")
