-- ===== src/Users.antt =====
-- The users of the system (modules/users).
pub mod Entity
pub mod Service
pub mod Created
mod Tests
