-- ===== src/Tenants.antt =====
-- The tenants module (modules/tenants): a school's settings and its public configuration.
pub mod Service
pub mod Flags
pub mod Branches
mod Tests
