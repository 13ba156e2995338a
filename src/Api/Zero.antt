-- ===== src/Api/Zero.antt =====
-- The zero values of the messages that the gateway decodes a body into.
use build_api.Common.{none, []}
use build_api.Common.Int.{pos}
use build_api.Api.AuthMessages.{
  RegisterRequest, LoginRequest, UpdateProfileRequest, RefreshTokenRequest, CreateUserApiKeyRequest,
}
use build_api.Api.BuilderMessages.{BuilderRequest, BuilderName}
use build_api.Api.OrganizationMessages.{CreateOrganizationRequest, UpdateOrganizationRequest}
use build_api.Api.TemplateMessages.{TemplateRequest}

abbrev pub zero_register_request : RegisterRequest
zero_register_request = record { email = ""; password = ""; name = "" }

abbrev pub zero_login_request : LoginRequest
zero_login_request = record { email = ""; password = "" }

abbrev pub zero_update_profile_request : UpdateProfileRequest
zero_update_profile_request = record { name = "" }

abbrev pub zero_refresh_token_request : RefreshTokenRequest
zero_refresh_token_request = record { refresh_token = "" }

abbrev pub zero_create_user_api_key_request : CreateUserApiKeyRequest
zero_create_user_api_key_request = record { name = ""; scopes = []; expires_in_days = pos 0 }

abbrev pub zero_builder_request : BuilderRequest
zero_builder_request = record { namespace = ""; name = ""; spec = none }

abbrev pub zero_wake_builder_request : BuilderName
zero_wake_builder_request = record { namespace = ""; name = "" }

abbrev pub zero_create_organization_request : CreateOrganizationRequest
zero_create_organization_request = record { name = ""; slug = ""; plan = "" }

abbrev pub zero_update_organization_request : UpdateOrganizationRequest
zero_update_organization_request = record { id = ""; name = ""; slug = ""; plan = "" }

abbrev pub zero_template_request : TemplateRequest
zero_template_request = record { namespace = ""; name = ""; spec = none }
