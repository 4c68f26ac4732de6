-- ===== src/Api.antt =====
-- src/api: what an application calls.
pub mod DocumentCache
pub mod Actions
pub mod Host
pub mod Cursor
pub mod Collection
pub mod Database
