-- ===== src/Builders.antt =====
-- internal/server/handlers.go: builders as custom resources.
pub mod Convert
pub mod Service
pub mod Rpc
pub mod Stub
