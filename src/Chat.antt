-- ===== src/Chat.antt =====
-- The chat module (modules/chat): rooms, messages and conversations.
pub mod Entities
pub mod Rooms
pub mod Messages
pub mod Conversations
pub mod Direct
pub mod Unread
pub mod Ownership
mod Tests
