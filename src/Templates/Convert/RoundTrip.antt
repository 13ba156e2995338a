-- ===== src/Templates/Convert/RoundTrip.antt =====
-- A template's specification, written to a resource and read back.
use build_api.Common.{
  String, ◌≡◌, refl, ◌&&◌, Option, none, some, List, [], ◌∷◌, map, arith, if◌then◌else◌,
}
use build_api.Common.Lists.{All}
use build_api.Api.TemplateMessages.{CacheConfig, ResourceRequirements, BuilderTemplateSpec}
use build_api.World.External.{Environment}
use build_api.Templates.Convert.{
  is_empty, entry_to_proto, parse_entries, resource_requirements_to_proto,
  proto_to_resource_requirements, template_spec_to_proto, proto_spec_to_template_spec,
}

abbrev limits_of : Option ResourceRequirements → List (String × String)
limits_of none = []
limits_of (some r) = r.limits

abbrev requests_of : Option ResourceRequirements → List (String × String)
requests_of none = []
requests_of (some r) = r.requests

-- Empty resources read back as none.
abbrev pub tidy_resources : Option ResourceRequirements → Option ResourceRequirements
tidy_resources r = if is_empty (limits_of r) && is_empty (requests_of r) then none else r

-- A missing cache configuration reads back as an empty one.
abbrev pub tidy_cache : Option CacheConfig → Option CacheConfig
tidy_cache none = some (record { type = ""; pvc = none; s3 = none })
tidy_cache (some c) = some c

abbrev pub tidy : BuilderTemplateSpec → BuilderTemplateSpec
tidy s = record s {
  resources = tidy_resources s.resources;
  cache_config = tidy_cache s.cache_config;
}

module _ {K Q : Type 0} (env : Environment K Q) where
  -- A quantity that parses and is printed in the same way.
  abbrev pub IsCanonical : String × String → Type 0
  IsCanonical e =
      (q : Q) × (env.kube.parse_quantity e.1 ≡ some q) × (env.kube.quantity_text q ≡ e.1)

  map-parse_entries :
      (m : List (String × String))
      → All IsCanonical m
      → map (entry_to_proto env) (parse_entries env m) ≡ m
  unfolding parse_entries
  map-parse_entries [] h = refl
  map-parse_entries ((k, v) ∷ m) ((q, parsed, printed), h) = ground (arith, map-parse_entries m h)

  is_empty-parse_entries :
      (m : List (String × String)) → All IsCanonical m → is_empty (parse_entries env m) ≡ is_empty m
  unfolding parse_entries
  is_empty-parse_entries [] h = refl
  is_empty-parse_entries ((k, v) ∷ m) ((q, parsed, printed), h) = ground arith

  resources_round_trip :
      (r : Option ResourceRequirements)
      → All IsCanonical (limits_of r)
      → All IsCanonical (requests_of r)
      → resource_requirements_to_proto env (proto_to_resource_requirements env r) ≡ tidy_resources r
  unfolding resource_requirements_to_proto proto_to_resource_requirements
  resources_round_trip none h k = refl
  resources_round_trip (some r) h k = rw (
    is_empty-parse_entries r.limits h,
    is_empty-parse_entries r.requests k,
    map-parse_entries r.limits h,
    map-parse_entries r.requests k,
  )

  -- A specification whose quantities are canonical is read back as it was written, except that
  -- resources with no entry become none and a missing cache configuration becomes an empty one.
  pub template_spec_round_trip :
      (s : BuilderTemplateSpec)
      → All IsCanonical (limits_of s.resources)
      → All IsCanonical (requests_of s.resources)
      → template_spec_to_proto env (proto_spec_to_template_spec env s) ≡ tidy s
  unfolding template_spec_to_proto proto_spec_to_template_spec
  template_spec_round_trip s h k = ground (arith, resources_round_trip s.resources h k)
