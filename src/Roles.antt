-- ===== src/Roles.antt =====
-- The roles module (modules/roles): the roles of a tenant and who has them.
pub mod Service
pub mod Seeding
pub mod Steps
pub mod Owner
mod Tests
