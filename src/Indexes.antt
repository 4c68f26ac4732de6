-- ===== src/Indexes.antt =====
-- src/indexes: the primary index, the indexes on strings and numbers, and the choice among them.
pub mod Buckets
pub mod StringIndex
pub mod NumberIndex
pub mod PrimaryIndex
pub mod Manager
