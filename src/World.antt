-- ===== src/World.antt =====
-- The state that a request works on: the database of internal/db and migrations/, the cluster of
-- internal/k8s, the two clocks, and the services outside the repository that the code calls.
pub mod Tables
pub mod External
pub mod Effect
pub mod Sql
