-- ===== src/Api/Methods.antt =====
-- The full method names of api/gen/buildapi/v1/*_grpc.pb.go, service by service in the order of the
-- service descriptors.
use build_api.Common.{String, List, [], ◌∷◌, ◌++◌}

abbrev pub register_method : String
register_method = "/buildapi.v1.AuthService/Register"

abbrev pub login_method : String
login_method = "/buildapi.v1.AuthService/Login"

abbrev pub get_me_method : String
get_me_method = "/buildapi.v1.AuthService/GetMe"

abbrev pub update_profile_method : String
update_profile_method = "/buildapi.v1.AuthService/UpdateProfile"

abbrev pub refresh_token_method : String
refresh_token_method = "/buildapi.v1.AuthService/RefreshToken"

abbrev pub create_user_api_key_method : String
create_user_api_key_method = "/buildapi.v1.AuthService/CreateUserApiKey"

abbrev pub list_user_api_keys_method : String
list_user_api_keys_method = "/buildapi.v1.AuthService/ListUserApiKeys"

abbrev pub revoke_user_api_key_method : String
revoke_user_api_key_method = "/buildapi.v1.AuthService/RevokeUserApiKey"

abbrev pub auth_service_methods : List String
auth_service_methods =
    register_method ∷ login_method ∷ get_me_method ∷ update_profile_method ∷ refresh_token_method
    ∷ create_user_api_key_method ∷ list_user_api_keys_method ∷ revoke_user_api_key_method ∷ []

abbrev pub list_builders_method : String
list_builders_method = "/buildapi.v1.BuildAPI/ListBuilders"

abbrev pub get_builder_method : String
get_builder_method = "/buildapi.v1.BuildAPI/GetBuilder"

abbrev pub create_builder_method : String
create_builder_method = "/buildapi.v1.BuildAPI/CreateBuilder"

abbrev pub update_builder_method : String
update_builder_method = "/buildapi.v1.BuildAPI/UpdateBuilder"

abbrev pub delete_builder_method : String
delete_builder_method = "/buildapi.v1.BuildAPI/DeleteBuilder"

abbrev pub wake_builder_method : String
wake_builder_method = "/buildapi.v1.BuildAPI/WakeBuilder"

abbrev pub health_check_method : String
health_check_method = "/buildapi.v1.BuildAPI/HealthCheck"

abbrev pub build_api_server_methods : List String
build_api_server_methods =
    list_builders_method ∷ get_builder_method ∷ create_builder_method ∷ update_builder_method
    ∷ delete_builder_method ∷ wake_builder_method ∷ health_check_method ∷ []

abbrev pub list_organizations_method : String
list_organizations_method = "/buildapi.v1.OrganizationService/ListOrganizations"

abbrev pub get_organization_method : String
get_organization_method = "/buildapi.v1.OrganizationService/GetOrganization"

abbrev pub create_organization_method : String
create_organization_method = "/buildapi.v1.OrganizationService/CreateOrganization"

abbrev pub update_organization_method : String
update_organization_method = "/buildapi.v1.OrganizationService/UpdateOrganization"

abbrev pub delete_organization_method : String
delete_organization_method = "/buildapi.v1.OrganizationService/DeleteOrganization"

abbrev pub list_organization_members_method : String
list_organization_members_method = "/buildapi.v1.OrganizationService/ListOrganizationMembers"

abbrev pub organization_service_methods : List String
organization_service_methods =
    list_organizations_method ∷ get_organization_method ∷ create_organization_method
    ∷ update_organization_method ∷ delete_organization_method ∷ list_organization_members_method
    ∷ []

abbrev pub list_templates_method : String
list_templates_method = "/buildapi.v1.TemplateService/ListTemplates"

abbrev pub get_template_method : String
get_template_method = "/buildapi.v1.TemplateService/GetTemplate"

abbrev pub create_template_method : String
create_template_method = "/buildapi.v1.TemplateService/CreateTemplate"

abbrev pub update_template_method : String
update_template_method = "/buildapi.v1.TemplateService/UpdateTemplate"

abbrev pub delete_template_method : String
delete_template_method = "/buildapi.v1.TemplateService/DeleteTemplate"

abbrev pub template_service_methods : List String
template_service_methods =
    list_templates_method ∷ get_template_method ∷ create_template_method ∷ update_template_method
    ∷ delete_template_method ∷ []

-- All methods that `main` registers.
abbrev pub registered_methods : List String
registered_methods =
    auth_service_methods
    ++ (build_api_server_methods ++ (organization_service_methods ++ template_service_methods))
