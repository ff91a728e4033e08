-- ===== src/Chat/Tests.antt =====
-- Runs of the chat module: a group room of two users and a message of one of them.
use edu_crm_backend.Chat.Entities.{
  message_live, room_live, ChatRoom, ChatMessage, ChatStore, ChatDb,
}
use edu_crm_backend.Shared.Enums.{ChatMessageType}
use edu_crm_backend.Database.InMemory.{in_memory}
use edu_crm_backend.Base.{
  ◌+◌, includes, Memᴰ, refl, ◌==◌, true, false, some, [], ◌≡◌, ◌∷◌, All, none,
}
use edu_crm_backend.Chat.Conversations.{
  send_conversation_message, count_unread, own_room, mark_conversation_read,
}
use edu_crm_backend.Base.Action.{ok, err, forbidden}
use edu_crm_backend.Chat.Rooms.{direct_between, find_room, create_or_get_direct_room}
use edu_crm_backend.Text.{codes}
use edu_crm_backend.Chat.Ownership.{send_message_outsider, delete_message_own, OwnChange}
use edu_crm_backend.Users.Entity.{user_live}
use edu_crm_backend.Chat.Messages.{send_message, delete_message}
use edu_crm_backend.Database.Rows.{UniqueBy-one}
use edu_crm_backend.Chat.Direct.{create_or_get_direct_room_again}
use edu_crm_backend.Database.{Uuid}
use edu_crm_backend.Chat.Unread.{mark_conversation_read_unread}

abbrev memory : ChatDb
memory = record {
  rooms = in_memory room_live;
  messages = in_memory message_live;
  users = in_memory user_live;
}

-- Room 50 of tenant 1, of the users 3 and 4.
abbrev staff_room : ChatRoom
staff_room = record {
  id = 50;
  deleted_at = none;
  tenant_id = 1;
  name = some "Staff";
  is_group = true;
  room_type = "group";
  participant_ids = 3 ∷ 4 ∷ [];
  last_message_at = none;
  last_message = none;
  is_active = true;
}

abbrev greeting : ChatMessage
greeting = record {
  id = 60;
  created_at = 100;
  deleted_at = none;
  tenant_id = 1;
  room_id = 50;
  sender_id = 3;
  content = codes "Good morning";
  type = ChatMessageType.text;
  file_url = none;
  file_name = none;
  is_read = false;
  read_at = none;
  reply_to_id = none;
  is_deleted = false;
}

abbrev talk : ChatStore
talk = record { rooms = staff_room ∷ []; messages = greeting ∷ []; users = [] }

create_or_get_direct_room_again_example :
    let s' = (create_or_get_direct_room memory 3 4 1 51 talk).1 in
    ((r : ChatRoom) × (create_or_get_direct_room memory 3 4 1 52 s' ≡ (ok r, s'))
      × (direct_between 3 4 1 r ≡ true))
    × ((r : ChatRoom) × (create_or_get_direct_room memory 4 3 1 52 s' ≡ (ok r, s'))
        × (direct_between 3 4 1 r ≡ true))
create_or_get_direct_room_again_example = create_or_get_direct_room_again memory 3 4 1 51 52 talk

mark_conversation_read_unread_example :
    let s' = (mark_conversation_read memory 50 4 1 200 talk).1 in
    (count_unread memory 50 4 1 s' ≡ 0)
    × ((other v : Uuid)
        → (other == 50) ≡ false
        → count_unread memory other v 1 s' ≡ count_unread memory other v 1 talk)
unfolding mark_conversation_read own_room find_room
mark_conversation_read_unread_example = mark_conversation_read_unread memory 50 4 1 200 talk refl

delete_message_own_example :
    All (OwnChange 4 talk.messages) (delete_message memory 60 4 1 talk).1.messages
delete_message_own_example =
    delete_message_own memory 60 4 1 talk (UniqueBy-one (λ m. m.id) greeting)

send_message_outsider_example :
    let s' = (send_message memory 50 9 1 (codes "Hi") ChatMessageType.text none 61 200 talk).1 in
    (send_conversation_message memory 50 9 1 (codes "Hi") 61 200 talk
      ≡ (err (forbidden "You are not a participant of this conversation"), talk))
    × ((m : ChatMessage) × Memᴰ m s'.messages
        × (m.sender_id ≡ 9)
        × (m.room_id ≡ 50)
        × (m.content ≡ codes "Hi"))
    × ((v : Uuid)
        → includes staff_room.participant_ids v ≡ true
        → count_unread memory 50 v 1 s' ≡ count_unread memory 50 v 1 talk + 1)
send_message_outsider_example =
    send_message_outsider memory 50 9 1 (codes "Hi") 61 200 talk staff_room refl refl
