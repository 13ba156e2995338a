-- ===== src/Api/OrganizationMessages.antt =====
-- The messages of api/gen/buildapi/v1/organizations.pb.go.
use build_api.Common.{ℕ, String}
use build_api.Common.Int.{ℤ}

pub record Organization : Type 0 where
  pub id : String
  pub name : String
  pub slug : String
  pub plan : String
  pub created_at : ℕ
  pub builder_count : ℤ
  pub total_minutes : ℤ
  pub monthly_minutes : ℤ
  pub member_count : ℤ

pub record CreateOrganizationRequest : Type 0 where
  pub name : String
  pub slug : String
  pub plan : String

pub record UpdateOrganizationRequest : Type 0 where
  pub id : String
  pub name : String
  pub slug : String
  pub plan : String

pub record OrganizationMember : Type 0 where
  pub user_id : String
  pub email : String
  pub name : String
  pub role : String
  pub joined_at : ℕ
