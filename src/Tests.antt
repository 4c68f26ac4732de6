-- ===== src/Tests.antt =====
-- The theorems at concrete inputs.
pub mod Data
pub mod Files
pub mod Payloads
pub mod Caches
pub mod Queries
pub mod Hosts
pub mod Databases
pub mod Managers
