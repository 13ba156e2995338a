-- ===== src/Builders/Convert/Defaults.antt =====
-- The defaults of a builder's specification.
use build_api.Common.{eq_iff, ◌≡◌, arith, if◌then◌else◌}
use build_api.Common.Int.{pos, is_positive}
use build_api.Api.BuilderMessages.{BuilderSpec}
use build_api.Builders.Convert.{cr_spec_to_proto, proto_spec_to_cr}

-- What a client reads after it wrote a specification: one replica and 300 seconds stand for numbers
-- that are not positive.
abbrev pub with_defaults : BuilderSpec → BuilderSpec
with_defaults s = record s {
  replicas = if is_positive s.replicas then s.replicas else pos 1;
  idle_timeout_seconds =
      if is_positive s.idle_timeout_seconds then s.idle_timeout_seconds else pos 300;
}

-- A specification that is written to a resource and read back is the same, but for the defaults.
pub proto-cr_round_trip :
    (s : BuilderSpec) → cr_spec_to_proto (proto_spec_to_cr s) ≡ with_defaults s
unfolding proto_spec_to_cr
proto-cr_round_trip s = ground (arith, eq_iff s.template_ref "")
