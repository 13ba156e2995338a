-- ===== src/Tests/ConvertTests.antt =====
-- Conversions and the HTTP edge: instances and runs.
use build_api.Common.{ℕ, suc, ◌≡◌, ◌∷◌, refl, true, none, some, []}
use build_api.Common.Int.{pos}
use build_api.Text.{split, trim_space, trim_left, trim_right, is_space}
use build_api.Api.BuilderMessages.{BuilderSpec}
use build_api.Api.TemplateMessages.{BuilderTemplateSpec}
use build_api.Auth.Scopes.{has_scope}
use build_api.Builders.Convert.{cr_spec_to_proto, proto_spec_to_cr}
use build_api.Builders.Convert.Defaults.{with_defaults, proto-cr_round_trip}
use build_api.Templates.Convert.{template_spec_to_proto, proto_spec_to_template_spec}
use build_api.Templates.Convert.RoundTrip.{tidy, template_spec_round_trip}
use build_api.Gateway.Edge.{
  HttpRequest, HttpHandler, write_header, collect_origins, parse_cors_origins,
}
use build_api.Tests.Demo.{env}

conversions : Unit {0}
unfolding split trim_space trim_left trim_right is_space has_scope collect_origins
    parse_cors_origins
conversions = tt

abbrev bare : BuilderSpec
bare = record {
  mode = "on";
  template_ref = "t";
  replicas = pos 0;
  idle_timeout_seconds = pos 9;
  labels = none;
}

proto-cr_round_trip_example : cr_spec_to_proto (proto_spec_to_cr bare) ≡ with_defaults bare
proto-cr_round_trip_example = proto-cr_round_trip bare

abbrev sized : BuilderTemplateSpec
sized = record {
  buildkit_image = "img";
  rootless = true;
  arch = "amd64";
  resources = some (record { limits = ("cpu", "2") ∷ []; requests = [] });
  cache_config = none;
}

template_spec_round_trip_example :
    template_spec_to_proto env (proto_spec_to_template_spec env sized) ≡ tidy sized
template_spec_round_trip_example = template_spec_round_trip env sized (("2", refl, refl), tt) tt

second_origin : has_scope (parse_cors_origins "a, b,") "b" ≡ true
unfolding conversions
second_origin = refl

abbrev preflight : HttpRequest
preflight = record {
  method = "OPTIONS";
  path = "/";
  headers = ("Origin", "a") ∷ [];
  cookies = [];
  body = "";
}

-- A handler that counts the requests that reach it.
abbrev answer : HttpHandler ℕ
answer r w n = (write_header 200 w, suc n)
