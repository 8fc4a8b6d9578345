-- ===== src/Admin.antt =====
-- The admin surface: src/modules/admin.
pub mod Limiter
pub mod Guard
mod Examples
