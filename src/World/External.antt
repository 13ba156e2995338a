-- ===== src/World/External.antt =====
-- What the program calls and does not implement: Postgres beyond the meaning of the SQL texts,
-- crypto and token libraries, Unicode tables, and the Kubernetes client with the custom resources
-- of build-operator. All of it is a parameter of the model.
use build_api.Common.{ℕ, Char, String, Bool, List, Option, Result}
use build_api.Common.Int.{ℤ}
use build_api.World.Tables.{OrgRow, MemberRow, KeyRow, UserRow, DbError}

pub record Postgres : Type 0 where
  -- the n-th value of `gen_random_uuid()` that is stored, in canonical text
  pub gen_random_uuid : ℕ → String
  -- the canonical text of a UUID parameter, or the error of the conversion
  pub uuid_in : String → Result DbError String
  -- the text of an error with a given SQLSTATE
  pub error_text : String → String
  -- `EXTRACT(EPOCH FROM t)::bigint`
  pub epoch : ℕ → ℕ
  -- the error with which the n-th call fails, if it does; such a call changes nothing
  pub outage : ℕ → Option DbError
  -- the three ORDER BY clauses; the order of ties is not specified
  pub order_by_name : List OrgRow → List OrgRow
  pub order_by_joined_at : List (MemberRow × UserRow) → List (MemberRow × UserRow)
  pub order_by_created_at_desc : List KeyRow → List KeyRow

-- The claims that the program puts into a token (times in microseconds).
pub record Claims : Type 0 where
  pub jti : String
  pub subject : String
  pub issued_at : ℕ
  pub expires_at : ℕ
  pub user_id : String
  pub email : String
  pub type : String

pub data SigningMethod : Type 0 where
  hmac : SigningMethod
  other_method : SigningMethod

-- `jwt.Token`: `claims` is none where the claims are not of the type `*Claims`.
pub record ParsedToken : Type 0 where
  pub claims : Option Claims
  pub valid : Bool

-- github.com/golang-jwt/jwt: errors are texts. `parse_with_claims` calls the key function that it
-- is given with the signing method that the token names.
pub record JwtLibrary : Type 0 where
  pub new_numeric_date : ℕ → ℕ
  pub signed_string : String → Claims → Result String String
  pub parse_with_claims :
      (SigningMethod → Result String String) → ℕ → String → Result String ParsedToken

-- An error of the Kubernetes API, with the answers of `apierrors.IsAlreadyExists` and `IsNotFound`.
pub record KubeError : Type 0 where
  pub is_already_exists : Bool
  pub is_not_found : Bool
  pub text : String

pub record Namespace : Type 0 where
  pub name : String
  pub labels : List (String × String)

-- The fields of `BuildkitBuilder` that the program reads or writes.
pub record BuilderCrSpec : Type 0 where
  pub mode : String
  pub template_ref : Option String
  pub replicas : Option ℤ
  pub idle_timeout_seconds : Option ℤ
  pub labels : Option (List (String × String))

pub record BuilderCrStatus : Type 0 where
  pub endpoint : String
  pub node_port : ℤ
  pub phase : String

pub record BuilderCr : Type 0 where
  pub namespace : String
  pub name : String
  pub annotations : Option (List (String × String))
  pub spec : BuilderCrSpec
  pub status : BuilderCrStatus

-- The fields of `BuildkitBuilderTemplate`. A quantity of `resource.Quantity` is its own type.
pub record PvcCr : Type 0 where
  pub size : String
  pub storage_class_name : String
  pub access_modes : List String

pub record S3Cr : Type 0 where
  pub bucket : String
  pub region : String
  pub endpoint : String

pub record CacheCr : Type 0 where
  pub type : String
  pub pvc : Option PvcCr
  pub s3 : Option S3Cr

pub record ResourcesCr (Quantity : Type 0) : Type 0 where
  pub limits : List (String × Quantity)
  pub requests : List (String × Quantity)

pub record TemplateCrSpec (Quantity : Type 0) : Type 0 where
  pub buildkit_image : String
  pub rootless : Bool
  pub arch : String
  pub resources : ResourcesCr Quantity
  pub cache_config : CacheCr

pub record TemplateCr (Quantity : Type 0) : Type 0 where
  pub namespace : String
  pub name : String
  pub spec : TemplateCrSpec Quantity

-- The calls of the controller-runtime client, over the cluster's state `K`. A call that writes
-- gives back the object as the server answers it, which the client stores in its argument.
pub record Kubernetes (K Quantity : Type 0) : Type 0 where
  pub create_namespace : Namespace → K → Option KubeError × K
  pub delete_namespace : String → K → Option KubeError × K
  pub list_builders : String → K → Result KubeError (List BuilderCr)
  pub get_builder : String → String → K → Result KubeError BuilderCr
  pub create_builder : BuilderCr → K → Result KubeError BuilderCr × K
  pub update_builder : BuilderCr → K → Result KubeError BuilderCr × K
  pub patch_builder : BuilderCr → BuilderCr → K → Result KubeError BuilderCr × K
  pub delete_builder : String → String → K → Option KubeError × K
  pub list_templates : String → K → Result KubeError (List (TemplateCr Quantity))
  pub get_template : String → String → K → Result KubeError (TemplateCr Quantity)
  pub create_template : TemplateCr Quantity → K → Result KubeError (TemplateCr Quantity) × K
  pub update_template : TemplateCr Quantity → K → Result KubeError (TemplateCr Quantity) × K
  pub delete_template : String → String → K → Option KubeError × K
  -- `resource.ParseQuantity` and `Quantity.String`
  pub parse_quantity : String → Option Quantity
  pub quantity_text : Quantity → String

pub record Environment (K Quantity : Type 0) : Type 0 where
  pub pg : Postgres
  pub jwt : JwtLibrary
  pub kube : Kubernetes K Quantity
  -- SHA-256, as bytes
  pub sha256 : String → List ℕ
  -- 32 bytes of `crypto/rand`, or the text of an error, at the n-th external call
  pub random_read : ℕ → Result String (List ℕ)
  -- `uuid.New().String()` at the n-th external call
  pub uuid_new : ℕ → String
  -- golang.org/x/crypto/bcrypt, salted at the n-th external call
  pub bcrypt_generate : ℕ → String → Result String String
  pub bcrypt_compare : String → String → Bool
  -- `unicode.ToLower` past ASCII
  pub lower_beyond : Char → Char
  -- `time.RFC3339` of a time in UTC
  pub rfc3339 : ℕ → String
