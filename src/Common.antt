-- ===== src/Common.antt =====
-- The helpers that all modules use (common/utils).
pub mod Pagination
pub mod Pages
pub mod Slug
pub mod Fresh
pub mod Clean
mod Tests
