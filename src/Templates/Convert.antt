-- ===== src/Templates/Convert.antt =====
-- The mapping helpers of internal/templates/service.go.
pub mod RoundTrip
use build_api.Common.{
  String, Bool, true, false, ◌&&◌, Option, none, some, List, [], ◌∷◌, map, if◌then◌else◌,
}
use build_api.Api.TemplateMessages.{
  PvcConfig, S3Config, CacheConfig, ResourceRequirements, BuilderTemplateSpec, BuilderTemplate,
}
use build_api.World.External.{
  Environment, PvcCr, S3Cr, CacheCr, ResourcesCr, TemplateCrSpec, TemplateCr,
}
use mathlib.Core.Option

abbrev is_empty {ℓ} : {A : Type ℓ} → List A → Bool
is_empty [] = true
is_empty (x ∷ xs) = false

abbrev pvc_to_proto : PvcCr → PvcConfig
pvc_to_proto p = record {
  size = p.size;
  storage_class_name = p.storage_class_name;
  access_modes = p.access_modes;
}

abbrev s3_to_proto : S3Cr → S3Config
s3_to_proto s = record { bucket = s.bucket; region = s.region; endpoint = s.endpoint }

abbrev pvc_to_cr : PvcConfig → PvcCr
pvc_to_cr p = record {
  size = p.size;
  storage_class_name = p.storage_class_name;
  access_modes = p.access_modes;
}

abbrev s3_to_cr : S3Config → S3Cr
s3_to_cr s = record { bucket = s.bucket; region = s.region; endpoint = s.endpoint }

abbrev map_option {ℓ κ} : {A : Type ℓ} {B : Type κ} → (A → B) → Option A → Option B
map_option f none = none
map_option f (some a) = some (f a)

abbrev no_cache : CacheCr
no_cache = record { type = ""; pvc = none; s3 = none }

abbrev cache_to_cr : Option CacheConfig → CacheCr
cache_to_cr none = no_cache
cache_to_cr (some c) = record {
  type = c.type;
  pvc = map_option pvc_to_cr c.pvc;
  s3 = map_option s3_to_cr c.s3;
}

module _ {K Q : Type 0} (env : Environment K Q) where
  abbrev entry_to_proto : String × Q → String × String
  entry_to_proto (k, q) = (k, env.kube.quantity_text q)

  -- `resourceRequirementsToProto`
  unfoldable pub resource_requirements_to_proto : ResourcesCr Q → Option ResourceRequirements
  resource_requirements_to_proto rr =
      if is_empty rr.limits && is_empty rr.requests
      then none
      else some (record {
        limits = map entry_to_proto rr.limits;
        requests = map entry_to_proto rr.requests;
      })

  -- A loop over a map: an entry whose quantity does not parse is left out.
  unfoldable pub parse_entries : List (String × String) → List (String × Q)
  parse_entries [] = []
  parse_entries ((k, v) ∷ m) = elim (env.kube.parse_quantity v) [
    | none ↦ parse_entries m
    | some q ↦ (k, q) ∷ parse_entries m
  ]

  -- `protoToResourceRequirements`
  unfoldable pub proto_to_resource_requirements : Option ResourceRequirements → ResourcesCr Q
  proto_to_resource_requirements none = record { limits = []; requests = [] }
  proto_to_resource_requirements (some pr) = record {
    limits = parse_entries pr.limits;
    requests = parse_entries pr.requests;
  }

  -- `templateSpecToProto`; its argument is the address of a field, which is never nil.
  unfoldable pub template_spec_to_proto : TemplateCrSpec Q → BuilderTemplateSpec
  template_spec_to_proto s = record {
    buildkit_image = s.buildkit_image;
    rootless = s.rootless;
    arch = s.arch;
    resources = resource_requirements_to_proto s.resources;
    cache_config = some (record {
      type = s.cache_config.type;
      pvc = map_option pvc_to_proto s.cache_config.pvc;
      s3 = map_option s3_to_proto s.cache_config.s3;
    });
  }

  -- `templateCRToProto`; its callers pass the address of a variable or of an element.
  unfoldable pub template_cr_to_proto : TemplateCr Q → BuilderTemplate
  template_cr_to_proto t = record {
    namespace = t.namespace;
    name = t.name;
    spec = template_spec_to_proto t.spec;
  }

  -- `protoSpecToTemplateSpec`; its callers have excluded nil.
  unfoldable pub proto_spec_to_template_spec : BuilderTemplateSpec → TemplateCrSpec Q
  proto_spec_to_template_spec s = record {
    buildkit_image = s.buildkit_image;
    rootless = s.rootless;
    arch = s.arch;
    resources = proto_to_resource_requirements s.resources;
    cache_config = cache_to_cr s.cache_config;
  }
