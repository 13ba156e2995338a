-- ===== src/Organizations.antt =====
-- internal/organizations/service.go.
pub mod Slug
pub mod Sql
pub mod Update
pub mod Service
pub mod Rpc
