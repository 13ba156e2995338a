-- ===== src/Gateway.antt =====
-- cmd/server/main.go and the generated gateway: the HTTP side. Requests and responses are what
-- net/http hands to the code: the header lines, the cookies, the body, and the writes to
-- the response.
pub mod Edge
pub mod Runtime
pub mod AuthProxy
pub mod BuilderProxy
pub mod OrganizationProxy
pub mod TemplateProxy
pub mod Targets
pub mod Http
pub mod Login
