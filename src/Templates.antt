-- ===== src/Templates.antt =====
-- internal/templates/service.go: builder templates as custom resources.
pub mod Convert
pub mod Service
pub mod Rpc
