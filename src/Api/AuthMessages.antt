-- ===== src/Api/AuthMessages.antt =====
-- The messages of api/gen/buildapi/v1/auth.pb.go. An `int64` that holds a time is a number of
-- seconds; a request is never nil, as the gRPC server decodes it into a new message.
use build_api.Common.{ℕ, String, List}
use build_api.Common.Int.{ℤ}

pub record User : Type 0 where
  pub id : String
  pub email : String
  pub name : String
  pub created_at : ℕ

pub record RegisterRequest : Type 0 where
  pub email : String
  pub password : String
  pub name : String

pub record RegisterResponse : Type 0 where
  pub user : User
  pub access_token : String
  pub refresh_token : String
  pub expires_in : ℕ

pub record LoginRequest : Type 0 where
  pub email : String
  pub password : String

pub record LoginResponse : Type 0 where
  pub user : User
  pub access_token : String
  pub refresh_token : String
  pub expires_in : ℕ

pub record GetMeResponse : Type 0 where
  pub user : User

pub record UpdateProfileRequest : Type 0 where
  pub name : String

pub record UpdateProfileResponse : Type 0 where
  pub user : User

pub record RefreshTokenRequest : Type 0 where
  pub refresh_token : String

pub record RefreshTokenResponse : Type 0 where
  pub access_token : String
  pub expires_in : ℕ

pub record CreateUserApiKeyRequest : Type 0 where
  pub name : String
  pub scopes : List String
  pub expires_in_days : ℤ

pub record UserApiKeyMetadata : Type 0 where
  pub id : String
  pub name : String
  pub key_prefix : String
  pub scopes : List String
  pub created_at : ℕ
  pub last_used_at : ℕ
  pub expires_at : ℕ

pub record CreateUserApiKeyResponse : Type 0 where
  pub key : UserApiKeyMetadata
  pub token : String

pub record ListUserApiKeysResponse : Type 0 where
  pub keys : List UserApiKeyMetadata

pub record RevokeUserApiKeyRequest : Type 0 where
  pub id : String
