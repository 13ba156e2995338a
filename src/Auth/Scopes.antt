-- ===== src/Auth/Scopes.antt =====
-- internal/auth/scopes.go and `PublicMethods`, `enforceAccess` of internal/auth/middleware.go: which
-- identity may call which method.
pub mod Access
pub mod Table
use build_api.Common.{
  String, ◌==◌, Bool, true, false, Option, none, some, List, [], ◌∷◌, Result, ok, err,
  if◌then◌else◌,
}
use build_api.Status.{Status, status_error, permission_denied}
use build_api.Auth.Context.{Principal}
use build_api.Api.Methods.{
  register_method, login_method, refresh_token_method, health_check_method, get_me_method,
  update_profile_method, create_user_api_key_method, list_user_api_keys_method,
  revoke_user_api_key_method, list_organizations_method, get_organization_method,
  create_organization_method, update_organization_method, delete_organization_method,
  list_organization_members_method, list_builders_method, get_builder_method, create_builder_method,
  update_builder_method, delete_builder_method, wake_builder_method, list_templates_method,
  get_template_method, create_template_method, update_template_method, delete_template_method,
}

abbrev pub scope_organizations_read : String
scope_organizations_read = "organizations:read"

abbrev pub scope_organizations_write : String
scope_organizations_write = "organizations:write"

abbrev pub scope_builders_read : String
scope_builders_read = "builders:read"

abbrev pub scope_builders_write : String
scope_builders_write = "builders:write"

abbrev pub scope_templates_read : String
scope_templates_read = "templates:read"

abbrev pub scope_templates_write : String
scope_templates_write = "templates:write"

-- Membership in a map that has only keys, and the loop of `hasScope`.
unfoldable pub has_scope : List String → String → Bool
has_scope [] required = false
has_scope (s ∷ scopes) required = if s == required then true else has_scope scopes required

unfoldable pub lookup {ℓ} : {V : Type ℓ} → List (String × V) → String → Option V
lookup [] key = none
lookup ((k, v) ∷ m) key = if k == key then some v else lookup m key

abbrev pub valid_scopes : List String
valid_scopes =
    scope_organizations_read ∷ scope_organizations_write ∷ scope_builders_read
    ∷ scope_builders_write ∷ scope_templates_read ∷ scope_templates_write ∷ []

abbrev pub public_methods : List String
public_methods = register_method ∷ login_method ∷ refresh_token_method ∷ health_check_method ∷ []

abbrev pub jwt_only_methods : List String
jwt_only_methods =
    get_me_method ∷ update_profile_method ∷ create_user_api_key_method ∷ list_user_api_keys_method
    ∷ revoke_user_api_key_method ∷ []

abbrev pub method_required_scope : List (String × String)
method_required_scope =
    (list_organizations_method, scope_organizations_read)
    ∷ (get_organization_method, scope_organizations_read)
    ∷ (create_organization_method, scope_organizations_write)
    ∷ (update_organization_method, scope_organizations_write)
    ∷ (delete_organization_method, scope_organizations_write)
    ∷ (list_organization_members_method, scope_organizations_read)
    ∷ (list_builders_method, scope_builders_read)
    ∷ (get_builder_method, scope_builders_read)
    ∷ (create_builder_method, scope_builders_write)
    ∷ (update_builder_method, scope_builders_write)
    ∷ (delete_builder_method, scope_builders_write)
    ∷ (wake_builder_method, scope_builders_write)
    ∷ (list_templates_method, scope_templates_read)
    ∷ (get_template_method, scope_templates_read)
    ∷ (create_template_method, scope_templates_write)
    ∷ (update_template_method, scope_templates_write)
    ∷ (delete_template_method, scope_templates_write)
    ∷ []

abbrev insufficient : Status
insufficient = status_error permission_denied "insufficient API key scope"

abbrev browser_only : Status
browser_only = status_error permission_denied "this operation requires a browser session"

-- The branch of `enforceAccess` for a method that is in `MethodRequiredScope`, and the last one.
abbrev enforce_scope : Option String → Principal → Result Status (Unit {0})
enforce_scope (some required) p =
    if p.full_access then ok tt else if has_scope p.scopes required then ok tt else err insufficient
enforce_scope none p = if p.full_access then ok tt else err insufficient

unfoldable pub enforce_access : String → Principal → Result Status (Unit {0})
enforce_access full_method p =
    if has_scope jwt_only_methods full_method
    then (if p.full_access then ok tt else err browser_only)
    else enforce_scope (lookup method_required_scope full_method) p
