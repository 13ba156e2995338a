-- ===== src/Templates/Rpc/Isolation.antt =====
-- A call of the template service stays in its namespace.
use build_api.Common.{
  String, ◌==◌, eq_iff, Bool-cases, ◌⊎◌, ◌≡◌, ◌≢◌, refl, ◌∙◌, arith, Result-cases, Option-cases,
  inl, inr, subst, sym, ap,
}
use build_api.World.External.{Environment, TemplateCr}
use build_api.World.Effect.{World, Action, ◌>>=◌, pure, state-wrap}
use build_api.Auth.Context.{Context}
use build_api.Auth.Scopes.{has_scope}
use build_api.Cluster.Isolation.{Isolated}
use build_api.Membership.Rows.{IsMember, ensure_org_member-IsMember, ensure_org_member-frame}
use build_api.Api.TemplateMessages.{TemplateRequest, TemplateName}
use build_api.Templates.Convert.{proto_spec_to_template_spec}
use build_api.Templates.Service.{
  ensure_template_member, create_template, update_template, delete_template,
}
use build_api.Templates.Rpc.{TemplateCall, list, get, delete, create, update, run_template_call}
use build_api.Templates.Rpc.Access.{namespace_of, run_template_call-outsider}
use build_api.Templates.Rpc.Frame.{run_template_call-reads}

module _ {K Q T : Type 0} (env : Environment K Q) (ns : String) (view : K → T)
    (laws : Isolated env.kube ns view) (ctx : Context) (w : World K) where
  abbrev checked : String → K
  checked m = (ensure_template_member env ctx m w).1.cluster

  update_template-isolated :
      (req : TemplateRequest)
      → req.namespace ≢ ns
      → view (update_template env ctx req w).1.cluster ≡ view w.cluster
  unfolding update_template
  update_template-isolated req other =
      let same = ensure_org_member-frame env ctx req.namespace w in
      let k = checked req.namespace in
      elim (Option-cases req.spec) [
        | inl missing ↦ ground (arith, same)
        | inr (spec, given) ↦ elim (Result-cases (env.kube.get_template req.namespace req.name k)) [
          | inr (e, missing) ↦ ground (arith, same)
          | inl (t, found) ↦
              let there = laws.template_read req.namespace req.name k t found in
              let kept =
                laws.template_updated (record t { spec = proto_spec_to_template_spec env spec }) k
                  (λ e. other (sym there ∙ e)) in
              ground (arith, same, kept)
        ]
      ]

  create_template-isolated :
      (req : TemplateRequest)
      → req.namespace ≢ ns
      → view (create_template env ctx req w).1.cluster ≡ view w.cluster
  unfolding create_template
  create_template-isolated req other =
      let same = ensure_org_member-frame env ctx req.namespace w in
      elim (Option-cases req.spec) [
        | inl missing ↦ ground (arith, same)
        | inr (spec, given) ↦
            let t : TemplateCr Q = record {
              namespace = req.namespace;
              name = req.name;
              spec = proto_spec_to_template_spec env spec;
            } in
            let kept = laws.template_created t (checked req.namespace) other in
            ground (arith, same, kept)
      ]

  delete_template-isolated :
      (req : TemplateName)
      → req.namespace ≢ ns
      → view (delete_template env ctx req w).1.cluster ≡ view w.cluster
  unfolding delete_template
  delete_template-isolated req other = ground (
    arith,
    ensure_org_member-frame env ctx req.namespace w,
    laws.template_deleted req.namespace req.name (checked req.namespace) other,
  )

  wrapped :
      {A B : Type 0} (m : Action K A) (f : A → B)
      → view (m w).1.cluster ≡ view w.cluster
      → view ((m >>= (λ r. pure (f r))) w).1.cluster ≡ view w.cluster
  wrapped m f = subst (λ v. view v.cluster ≡ view w.cluster) (sym (state-wrap m f w))

  -- A call that does not name the namespace of a view changes nothing that the view shows.
  pub run_template_call-isolated :
      (call : TemplateCall)
      → namespace_of call ≢ ns
      → view (run_template_call env ctx call w).1.cluster ≡ view w.cluster
  unfolding run_template_call has_scope
  run_template_call-isolated (list m) other =
      ap view (run_template_call-reads env ctx (list m) w refl)
  run_template_call-isolated (get req) other =
      ap view (run_template_call-reads env ctx (get req) w refl)
  run_template_call-isolated (delete req) other =
      wrapped (delete_template env ctx req) _ (delete_template-isolated req other)
  run_template_call-isolated (create req) other =
      wrapped (create_template env ctx req) _ (create_template-isolated req other)
  run_template_call-isolated (update req) other =
      wrapped (update_template env ctx req) _ (update_template-isolated req other)

  -- A call changes nothing that a view of a namespace shows, unless the caller is a member of its
  -- organization.
  pub run_template_call-IsMember :
      (call : TemplateCall)
      → IsMember env ctx ns w ⊎ (view (run_template_call env ctx call w).1.cluster ≡ view w.cluster)
  run_template_call-IsMember call = elim (Bool-cases (namespace_of call == ns)) [
    | inr other ↦
        inr (run_template_call-isolated call (λ e. ground (arith, eq_iff (namespace_of call) ns)))
    | inl same ↦ elim (Result-cases (ensure_template_member env ctx (namespace_of call) w).0) [
      | inl (_, member) ↦ inl (
          subst (λ n. IsMember env ctx n w) ((eq_iff (namespace_of call) ns).0 same)
            (ensure_org_member-IsMember env ctx (namespace_of call) w member))
      | inr (s, outsider) ↦
          let (_, _, kept) =
            run_template_call-outsider env ctx call (namespace_of call) s w refl outsider in
          inr (ap view kept)
    ]
  ]
