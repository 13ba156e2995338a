-- ===== src/Builders/Convert.antt =====
-- `crToProto` and `protoSpecToCR` of internal/server/handlers.go.
pub mod Defaults
use build_api.Common.{String, ◌==◌, Bool, Option, none, some, List, [], ◌∷◌, if◌then◌else◌}
use build_api.Common.Int.{ℤ, pos, is_positive}
use build_api.Api.BuilderMessages.{BuilderSpec, BuilderStatus, Builder}
use build_api.World.External.{BuilderCr, BuilderCrSpec, BuilderCrStatus}

abbrev pub text_or : String → Option String → String
text_or default none = default
text_or default (some t) = t

abbrev pub int_or : ℤ → Option ℤ → ℤ
int_or default none = default
int_or default (some n) = n

abbrev pub cr_spec_to_proto : BuilderCrSpec → BuilderSpec
cr_spec_to_proto s = record {
  mode = s.mode;
  template_ref = text_or "" s.template_ref;
  replicas = int_or (pos 1) s.replicas;
  idle_timeout_seconds = int_or (pos 300) s.idle_timeout_seconds;
  labels = s.labels;
}

-- `crToProto`
unfoldable pub cr_to_proto : BuilderCr → Builder
cr_to_proto b = record {
  namespace = b.namespace;
  name = b.name;
  spec = cr_spec_to_proto b.spec;
  status = record {
    endpoint = b.status.endpoint;
    node_port = b.status.node_port;
    phase = b.status.phase;
  };
}

-- `protoSpecToCR`
unfoldable pub proto_spec_to_cr : BuilderSpec → BuilderCrSpec
proto_spec_to_cr s = record {
  mode = s.mode;
  template_ref = if s.template_ref == "" then none else some s.template_ref;
  replicas = if is_positive s.replicas then some s.replicas else none;
  idle_timeout_seconds =
      if is_positive s.idle_timeout_seconds then some s.idle_timeout_seconds else none;
  labels = s.labels;
}
