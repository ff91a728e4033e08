-- ===== src/Groups.antt =====
-- The groups module (modules/groups): groups and the students in them.
pub mod Entities
pub mod Service
pub mod Membership
pub mod Replay
pub mod Drift
pub mod InMemory
mod Tests
