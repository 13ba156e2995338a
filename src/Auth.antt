-- ===== src/Auth.antt =====
-- internal/auth: identities, scopes, API keys, session tokens, the interceptors and the service.
pub mod Context
pub mod Scopes
pub mod Encoding
pub mod Keys
pub mod Jwt
pub mod Middleware
pub mod Sql
pub mod Validation
pub mod Service
pub mod Rpc
