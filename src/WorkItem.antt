-- ===== src/WorkItem.antt =====
-- Work items: src/modules/project.
pub mod Code
pub mod Search
pub mod Trash
mod Examples
