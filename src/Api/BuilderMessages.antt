-- ===== src/Api/BuilderMessages.antt =====
-- The messages of api/gen/buildapi/v1/buildapi.pb.go. A pointer that may be nil is an `Option`.
use build_api.Common.{String, List, Option}
use build_api.Common.Int.{ℤ}

pub record BuilderSpec : Type 0 where
  pub mode : String
  pub template_ref : String
  pub replicas : ℤ
  pub idle_timeout_seconds : ℤ
  pub labels : Option (List (String × String))

pub record BuilderStatus : Type 0 where
  pub endpoint : String
  pub node_port : ℤ
  pub phase : String

pub record Builder : Type 0 where
  pub namespace : String
  pub name : String
  pub spec : BuilderSpec
  pub status : BuilderStatus

-- `CreateBuilderRequest` and `UpdateBuilderRequest`, which have the same fields.
pub record BuilderRequest : Type 0 where
  pub namespace : String
  pub name : String
  pub spec : Option BuilderSpec

-- `GetBuilderRequest`, `DeleteBuilderRequest` and `WakeBuilderRequest`
pub record BuilderName : Type 0 where
  pub namespace : String
  pub name : String
