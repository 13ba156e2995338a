-- ===== src/Builders/Rpc/Isolation.antt =====
-- A call of the builder service stays in its namespace.
use build_api.Common.{
  String, ◌==◌, eq_iff, Bool-cases, ◌⊎◌, ◌≡◌, ◌≢◌, refl, ◌∙◌, some, none, arith, Result-cases,
  Option-cases, inl, inr, subst, sym, ap,
}
use build_api.World.External.{Environment, BuilderCr}
use build_api.World.Effect.{World, Action, ◌>>=◌, pure, state-wrap}
use build_api.Auth.Context.{Context}
use build_api.Cluster.{ensure_org_namespace, org_namespace}
use build_api.Cluster.Isolation.{Isolated}
use build_api.Membership.{ensure_org_member}
use build_api.Membership.Rows.{IsMember, ensure_org_member-IsMember, ensure_org_member-frame}
use build_api.Api.BuilderMessages.{BuilderRequest, BuilderName, BuilderSpec}
use build_api.Builders.Convert.{proto_spec_to_cr}
use build_api.Builders.Service.{
  create_builder, update_builder, delete_builder, wake_builder, health_check, woken, no_status,
}
use build_api.Builders.Rpc.{
  BuilderCall, list, get, delete, wake, create, update, health, run_builder_call,
}
use build_api.Auth.Scopes.{has_scope}
use build_api.Builders.Rpc.Access.{namespace_of, run_builder_call-outsider}
use build_api.Builders.Rpc.Frame.{run_builder_call-reads}

abbrev new_builder : BuilderRequest → BuilderSpec → BuilderCr
new_builder req spec = record {
  namespace = req.namespace;
  name = req.name;
  annotations = none;
  spec = proto_spec_to_cr spec;
  status = no_status;
}

module _ {K Q T : Type 0} (env : Environment K Q) (ns : String) (view : K → T)
    (laws : Isolated env.kube ns view) (ctx : Context) (w : World K) where
  abbrev checked : String → K
  checked m = (ensure_org_member env ctx m w).1.cluster

  update_builder-isolated :
      (req : BuilderRequest)
      → req.namespace ≢ ns
      → view (update_builder env ctx req w).1.cluster ≡ view w.cluster
  unfolding update_builder
  update_builder-isolated req other =
      let same = ensure_org_member-frame env ctx req.namespace w in
      let k = checked req.namespace in
      elim (Option-cases req.spec) [
        | inl missing ↦ ground (arith, same)
        | inr (spec, given) ↦ elim (Result-cases (env.kube.get_builder req.namespace req.name k)) [
          | inr (e, missing) ↦ ground (arith, same)
          | inl (b, found) ↦
              let there = laws.builder_read req.namespace req.name k b found in
              let kept =
                laws.builder_updated (record b { spec = proto_spec_to_cr spec }) k
                  (λ e. other (sym there ∙ e)) in
              ground (arith, same, kept)
        ]
      ]

  wake_builder-isolated :
      (req : BuilderName)
      → req.namespace ≢ ns
      → view (wake_builder env ctx req w).1.cluster ≡ view w.cluster
  unfolding wake_builder woken
  wake_builder-isolated req other =
      let same = ensure_org_member-frame env ctx req.namespace w in
      let v = (ensure_org_member env ctx req.namespace w).1 in
      elim (Result-cases (env.kube.get_builder req.namespace req.name v.cluster)) [
        | inr (e, missing) ↦ ground (arith, same)
        | inl (b, found) ↦
            let there = laws.builder_read req.namespace req.name v.cluster b found in
            let kept =
              laws.builder_patched b (woken (env.rfc3339 v.now) b) v.cluster
                (λ e. other (sym there ∙ e)) in
            ground (arith, same, kept)
      ]

  create_builder-isolated :
      (req : BuilderRequest)
      → req.namespace ≢ ns
      → view (create_builder env ctx req w).1.cluster ≡ view w.cluster
  unfolding create_builder ensure_org_namespace
  create_builder-isolated req other =
      let same = ensure_org_member-frame env ctx req.namespace w in
      let k = checked req.namespace in
      let k' = (env.kube.create_namespace (org_namespace req.namespace) k).1 in
      let ensured = laws.namespace_created (org_namespace req.namespace) k other in
      elim (Option-cases req.spec) [
        | inl missing ↦ ground (arith, same, ensured)
        | inr (spec, given) ↦
            let kept = laws.builder_created (new_builder req spec) k' other in
            ground (arith, same, ensured, kept)
      ]

  delete_builder-isolated :
      (req : BuilderName)
      → req.namespace ≢ ns
      → view (delete_builder env ctx req w).1.cluster ≡ view w.cluster
  unfolding delete_builder
  delete_builder-isolated req other = ground (
    arith,
    ensure_org_member-frame env ctx req.namespace w,
    laws.builder_deleted req.namespace req.name (checked req.namespace) other,
  )

  wrapped :
      {A B : Type 0} (m : Action K A) (f : A → B)
      → view (m w).1.cluster ≡ view w.cluster
      → view ((m >>= (λ r. pure (f r))) w).1.cluster ≡ view w.cluster
  wrapped m f = subst (λ v. view v.cluster ≡ view w.cluster) (sym (state-wrap m f w))

  -- A call that does not name the namespace of a view changes nothing that the view shows.
  pub run_builder_call-isolated :
      (call : BuilderCall)
      → namespace_of call ≢ some ns
      → view (run_builder_call env ctx call w).1.cluster ≡ view w.cluster
  unfolding run_builder_call has_scope health_check
  run_builder_call-isolated (list m) other =
      ap view (run_builder_call-reads env ctx (list m) w refl)
  run_builder_call-isolated (get req) other =
      ap view (run_builder_call-reads env ctx (get req) w refl)
  run_builder_call-isolated (delete req) other =
      wrapped (delete_builder env ctx req) _ (delete_builder-isolated req (λ e. other (ap some e)))
  run_builder_call-isolated (wake req) other =
      wrapped (wake_builder env ctx req) _ (wake_builder-isolated req (λ e. other (ap some e)))
  run_builder_call-isolated (create req) other =
      wrapped (create_builder env ctx req) _ (create_builder-isolated req (λ e. other (ap some e)))
  run_builder_call-isolated (update req) other =
      wrapped (update_builder env ctx req) _ (update_builder-isolated req (λ e. other (ap some e)))
  run_builder_call-isolated health other = refl

  -- A call changes nothing that a view of a namespace shows, unless the caller is a member of its
  -- organization.
  pub run_builder_call-IsMember :
      (call : BuilderCall)
      → IsMember env ctx ns w ⊎ (view (run_builder_call env ctx call w).1.cluster ≡ view w.cluster)
  run_builder_call-IsMember call = elim (Option-cases (namespace_of call)) [
    | inl nowhere ↦ inr (run_builder_call-isolated call (λ e. cc))
    | inr (m, names) ↦ elim (Bool-cases (m == ns)) [
      | inr other ↦ inr (run_builder_call-isolated call (λ e. ground (arith, eq_iff m ns)))
      | inl same ↦ elim (Result-cases (ensure_org_member env ctx m w).0) [
        | inl (_, member) ↦ inl (
            subst (λ n. IsMember env ctx n w) ((eq_iff m ns).0 same)
              (ensure_org_member-IsMember env ctx m w member))
        | inr (s, outsider) ↦
            let (_, _, kept) = run_builder_call-outsider env ctx call m s w names outsider in
            inr (ap view kept)
      ]
    ]
  ]
