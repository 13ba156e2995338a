-- ===== src/Cluster/Isolation.antt =====
-- What the cluster promises about namespaces.
use build_api.Common.{String, ◌≡◌, ◌≢◌, ok}
use build_api.World.External.{Kubernetes, Namespace, BuilderCr, TemplateCr}

-- A view of the cluster, such as the objects of one namespace, that a call does not change if it
-- names another namespace; and an object that is read has the namespace it was asked for in.
pub record Isolated {K Q T : Type 0} (kube : Kubernetes K Q) (ns : String) (view : K → T)
    : Type 0 where
  pub namespace_created :
      (n : Namespace) (k : K) → n.name ≢ ns → view (kube.create_namespace n k).1 ≡ view k
  pub namespace_deleted :
      (name : String) (k : K) → name ≢ ns → view (kube.delete_namespace name k).1 ≡ view k
  pub builder_created :
      (b : BuilderCr) (k : K) → b.namespace ≢ ns → view (kube.create_builder b k).1 ≡ view k
  pub builder_updated :
      (b : BuilderCr) (k : K) → b.namespace ≢ ns → view (kube.update_builder b k).1 ≡ view k
  pub builder_patched :
      (a b : BuilderCr) (k : K) → b.namespace ≢ ns → view (kube.patch_builder a b k).1 ≡ view k
  pub builder_deleted :
      (m name : String) (k : K) → m ≢ ns → view (kube.delete_builder m name k).1 ≡ view k
  pub builder_read :
      (m name : String) (k : K) (b : BuilderCr) → kube.get_builder m name k ≡ ok b → b.namespace ≡ m
  pub template_created :
      (t : TemplateCr Q) (k : K) → t.namespace ≢ ns → view (kube.create_template t k).1 ≡ view k
  pub template_updated :
      (t : TemplateCr Q) (k : K) → t.namespace ≢ ns → view (kube.update_template t k).1 ≡ view k
  pub template_deleted :
      (m name : String) (k : K) → m ≢ ns → view (kube.delete_template m name k).1 ≡ view k
  pub template_read :
      (m name : String) (k : K) (t : TemplateCr Q)
      → kube.get_template m name k ≡ ok t
      → t.namespace ≡ m
