-- ===== src/ObjectStorage.antt =====
-- The deletion of stored objects: src/core/object-storage.
pub mod Deletion
pub mod Claims
pub mod Retries
mod Examples
