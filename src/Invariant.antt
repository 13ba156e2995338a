-- ===== src/Invariant.antt =====
-- Well-formed tables: their rows, the statements, the handlers, and histories of calls.
pub mod Rows
pub mod Tables
pub mod Slugs
pub mod Statements
pub mod Runs
pub mod Calls
pub mod Handlers
pub mod RegisterUpdate
pub mod Served
pub mod OrgRows
pub mod OrgCalls
pub mod OrgServed
pub mod Reachable
pub mod Revoked
