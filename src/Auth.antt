-- ===== src/Auth.antt =====
-- The auth module (modules/auth): passwords, lockout, tokens, one-time codes and invitations.
pub mod Store
pub mod Tokens
pub mod Login
pub mod Session
pub mod Reset
pub mod Account
pub mod Lockout
pub mod Sessions
pub mod Register
pub mod Codes
mod Tests
