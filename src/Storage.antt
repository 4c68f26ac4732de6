-- ===== src/Storage.antt =====
-- The storage layer: src/storage.
pub mod Buffers
pub mod U29
pub mod Constants
pub mod Crc32
pub mod OperationRecord
pub mod Os
pub mod FileStorage
pub mod Payloads
pub mod CollectionOperation
pub mod DocumentOperation
pub mod IndexOperation
pub mod DocumentId
