-- ===== src/Tests.antt =====
-- The theorems on concrete runs of the program.
pub mod Lab
pub mod Policies
pub mod Operations
pub mod Gateway
pub mod Keycloak
pub mod Chat
pub mod Http
pub mod Scans
pub mod Table
pub mod Rows
pub mod Patches
pub mod Boot
