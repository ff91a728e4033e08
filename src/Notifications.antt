-- ===== src/Notifications.antt =====
-- The notifications module (modules/notifications): sending, reading and templates.
pub mod Entities
pub mod Transport
pub mod Send
pub mod Inbox
pub mod Templates
pub mod Settled
pub mod Reading
mod Tests
