-- ===== src/Chat/Messages.antt =====
-- The messages of modules/chat/chat.service.ts.
use edu_crm_backend.Chat.Entities.{ChatRoom, ChatMessage, ChatStore, ChatDb}
use edu_crm_backend.Database.{Instant, Uuid}
use edu_crm_backend.Base.{
  ◌*◌, ◌-◌, reverse, false, none, not, take, String, some, ◌&&◌, Option, ◌==◌, Bool, true, ℕ, List,
}
use edu_crm_backend.Text.{codes, Text}
use edu_crm_backend.Chat.Rooms.{has_room_id, find_room}
use edu_crm_backend.Shared.Enums.{ChatMessageType}
use edu_crm_backend.Base.Action.{
  forbidden, throw_if, not_found, pure, ◌>>◌, or_throw, gets, ◌>>=◌, modify, Action,
}
use edu_crm_backend.Common.Pagination.{drop}

abbrev pub has_message_id : Uuid → ChatMessage → Bool
has_message_id id m = m.id == id

-- The condition of `markMessagesRead`, over rows that are deleted softly too.
abbrev pub unread_from_others : Uuid → Uuid → Uuid → ChatMessage → Bool
unread_from_others room_id user_id tenant_id m =
    (m.room_id == room_id && m.tenant_id == tenant_id)
    && (not (m.sender_id == user_id) && not m.is_read)

abbrev pub last_message_of : Text → Instant → ChatRoom → ChatRoom
last_message_of content now r = record r {
  last_message_at = some now;
  last_message = some (take 100 content);
}

unfoldable pub new_message :
    Uuid → Uuid → Uuid → Uuid → Text → ChatMessageType → Option String → Instant → ChatMessage
new_message id room_id sender_id tenant_id content type file_url now = record {
  id = id;
  created_at = now;
  deleted_at = none;
  tenant_id = tenant_id;
  room_id = room_id;
  sender_id = sender_id;
  content = content;
  type = type;
  file_url = file_url;
  file_name = none;
  is_read = false;
  read_at = none;
  reply_to_id = none;
  is_deleted = false;
}

abbrev pub set_deleted : ChatMessage → ChatMessage
set_deleted m = record m { is_deleted = true; content = codes "This message was deleted" }

pub record MessagePage : Type 0 where
  pub items : List ChatMessage
  pub total : ℕ
  pub page : ℕ
  pub limit : ℕ

module _ (db : ChatDb) where
  unfoldable pub send_message :
      Uuid
      → Uuid
      → Uuid
      → Text
      → ChatMessageType
      → Option String
      → Uuid
      → Instant
      → Action ChatStore ChatMessage
  unfolding find_room new_message
  send_message room_id sender_id tenant_id content type file_url new_id now = do
    find_room db room_id tenant_id "Chat room not found"
    let message = new_message new_id room_id sender_id tenant_id content type file_url now
    modify (λ s. record s { messages = db.messages.insert message s.messages })
    modify (λ s. record s {
      rooms = db.rooms.update (has_room_id room_id) (last_message_of content now) s.rooms;
    })
    pure message

  -- The database returns the newest first; the page is turned round.
  unfoldable pub get_messages : Uuid → Uuid → ℕ → ℕ → Action ChatStore MessagePage
  get_messages room_id tenant_id page limit = do
    let fits : ChatMessage → Bool =
        λ m. (m.room_id == room_id && m.tenant_id == tenant_id) && not m.is_deleted
    rows ← gets (λ s. db.messages.find fits s.messages)
    total ← gets (λ s. db.messages.count fits s.messages)
    pure (record {
      items = reverse (take limit (drop ((page - 1) * limit) rows));
      total = total;
      page = page;
      limit = limit;
    })

  pub mark_messages_read : Uuid → Uuid → Uuid → Action ChatStore (Unit {0})
  mark_messages_read room_id user_id tenant_id = modify (λ s. record s {
    messages =
        db.messages.update (unread_from_others room_id user_id tenant_id)
          (λ m. record m { is_read = true }) s.messages;
  })

  unfoldable pub delete_message : Uuid → Uuid → Uuid → Action ChatStore (Unit {0})
  delete_message message_id user_id tenant_id = do
    found ←
        gets (λ s.
          db.messages.find_one (λ m. m.id == message_id && m.tenant_id == tenant_id) s.messages)
    message ← or_throw found (not_found "Message not found")
    throw_if (not (message.sender_id == user_id))
        (forbidden "You can only delete your own messages")
    modify (λ s. record s {
      messages = db.messages.update (has_message_id message_id) set_deleted s.messages;
    })
