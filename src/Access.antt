-- ===== src/Access.antt =====
-- Who may do what: the tables of permissions of a role and the guards in front of the
-- handlers (common/guards, common/utils/permissions.util.ts).
pub mod Values
pub mod Tables
pub mod Ranks
pub mod Guards
mod Tests
