-- ===== src/Manager.antt =====
-- internal/operation: the manager of operations.
pub mod Platform
pub mod World
pub mod Resolve
pub mod Started
pub mod RolledOut
pub mod Crash
pub mod Cluster
pub mod Start
pub mod Watch
pub mod Reconcile
pub mod Steps
pub mod History
