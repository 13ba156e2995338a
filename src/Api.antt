-- ===== src/Api.antt =====
-- The messages and method names of api/gen/buildapi/v1.
pub mod AuthMessages
pub mod Methods
pub mod OrganizationMessages
pub mod BuilderMessages
pub mod TemplateMessages
pub mod Zero
