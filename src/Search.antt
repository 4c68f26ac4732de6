-- ===== src/Search.antt =====
-- src/search: queries, their evaluation, and the order of sorted results.
pub mod Values
pub mod Queries
pub mod Evaluate
pub mod Sort
pub mod Compile
pub mod Update
