-- ===== src/Shared.antt =====
-- Declarations that every module of the backend shares (src/shared).
pub mod Enums
