-- ===== src/Api/TemplateMessages.antt =====
-- The messages of api/gen/buildapi/v1/templates.pb.go. A pointer that may be nil is an `Option`; a
-- map is a list of its entries, empty where the map is nil.
use build_api.Common.{String, Bool, List, Option}

pub record PvcConfig : Type 0 where
  pub size : String
  pub storage_class_name : String
  pub access_modes : List String

pub record S3Config : Type 0 where
  pub bucket : String
  pub region : String
  pub endpoint : String

pub record CacheConfig : Type 0 where
  pub type : String
  pub pvc : Option PvcConfig
  pub s3 : Option S3Config

pub record ResourceRequirements : Type 0 where
  pub limits : List (String × String)
  pub requests : List (String × String)

pub record BuilderTemplateSpec : Type 0 where
  pub buildkit_image : String
  pub rootless : Bool
  pub arch : String
  pub resources : Option ResourceRequirements
  pub cache_config : Option CacheConfig

pub record BuilderTemplate : Type 0 where
  pub namespace : String
  pub name : String
  pub spec : BuilderTemplateSpec

-- `CreateTemplateRequest` and `UpdateTemplateRequest`, which have the same fields.
pub record TemplateRequest : Type 0 where
  pub namespace : String
  pub name : String
  pub spec : Option BuilderTemplateSpec

-- `GetTemplateRequest` and `DeleteTemplateRequest`
pub record TemplateName : Type 0 where
  pub namespace : String
  pub name : String
