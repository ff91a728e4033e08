-- ===== src/Chat/Conversations.antt =====
-- The conversations of modules/chat/chat.service.ts: the same rooms, for their participants only.
use edu_crm_backend.Chat.Entities.{ChatRoom, ChatMessage, ChatStore, ChatDb}
use edu_crm_backend.Chat.Messages.{unread_from_others, send_message, get_messages}
use edu_crm_backend.Database.{Instant, Uuid}
use edu_crm_backend.Base.{
  [], includes, ◌==◌, map, not, find_first, ◌&&◌, or_else, concat, ◌∷◌, some, if◌then◌else◌, none,
  String, true, Bool, ℕ, Option, List,
}
use edu_crm_backend.Chat.Rooms.{get_my_rooms, find_room}
use edu_crm_backend.Base.Action.{pure, forbidden, modify, throw_if, gets, ◌>>◌, ◌>>=◌, Action}
use edu_crm_backend.Users.Entity.{User, has_user_id}
use edu_crm_backend.Text.{Text}
use edu_crm_backend.Shared.Enums.{ChatMessageType}

pub record ConversationDto : Type 0 where
  pub id : Uuid
  pub participant_id : Uuid
  pub participant_name : String
  pub participant_avatar_url : Option String
  pub last_message : Option Text
  pub last_message_at : Option Instant
  pub unread_count : ℕ

pub record ConversationMessageDto : Type 0 where
  pub id : Uuid
  pub sender_id : Uuid
  pub sender_name : String
  pub sender_avatar_url : Option String
  pub content : Text
  pub sent_at : Instant
  pub read_at : Option Instant

-- `u ? `${u.firstName} ${u.lastName}` : 'Unknown user'`
pub name_or_unknown : Option User → String
name_or_unknown none = "Unknown user"
name_or_unknown (some u) = concat u.first_name (concat " " u.last_name)

abbrev pub avatar_of : Option User → Option String
avatar_of none = none
avatar_of (some u) = u.avatar_url

-- The messages that count as unread for a user.
abbrev pub unread_for : Uuid → Uuid → Uuid → ChatMessage → Bool
unread_for room_id user_id tenant_id m =
    unread_from_others room_id user_id tenant_id m && not m.is_deleted

abbrev pub set_read : Instant → ChatMessage → ChatMessage
set_read now m = record m { is_read = true; read_at = some now }

-- `participantIds.find((id) => id !== userId) ?? participantIds[0]`
pub other_participant : List Uuid → Uuid → Option Uuid
other_participant [] user_id = none
other_participant (p ∷ ps) user_id = elim (find_first (λ id. not (id == user_id)) (p ∷ ps)) [
  | none ↦ some p
  | some id ↦ some id
]

module _ (db : ChatDb) where
  unfoldable pub count_unread : Uuid → Uuid → Uuid → ChatStore → ℕ
  count_unread room_id user_id tenant_id s =
      db.messages.count (unread_for room_id user_id tenant_id) s.messages

  -- A user by id, where there is an id to look for.
  user_by : Option Uuid → ChatStore → Option User
  user_by none s = none
  user_by (some id) s = db.users.find_one (has_user_id id) s.users

  pub conversation_of : Uuid → Uuid → ChatStore → ChatRoom → ConversationDto
  unfolding count_unread user_by other_participant name_or_unknown
  conversation_of user_id tenant_id s room =
      let other_id = other_participant room.participant_ids user_id in
      let other = user_by other_id s in
      record {
        id = room.id;
        participant_id = if room.is_group then room.id else or_else other_id room.id;
        participant_name =
            if room.is_group then or_else room.name "Group chat" else name_or_unknown other;
        participant_avatar_url = if room.is_group then none else avatar_of other;
        last_message = room.last_message;
        last_message_at = room.last_message_at;
        unread_count = count_unread room.id user_id tenant_id s;
      }

  pub get_conversations : Uuid → Uuid → Action ChatStore (List ConversationDto)
  unfolding get_my_rooms conversation_of
  get_conversations user_id tenant_id = do
    rooms ← get_my_rooms db user_id tenant_id
    gets (λ s. map (conversation_of user_id tenant_id s) rooms)

  -- The room, for a participant.
  unfoldable pub own_room : Uuid → Uuid → Uuid → Action ChatStore ChatRoom
  unfolding find_room
  own_room room_id user_id tenant_id = do
    room ← find_room db room_id tenant_id "Conversation not found"
    throw_if (not (includes room.participant_ids user_id))
        (forbidden "You are not a participant of this conversation")
    pure room

  shown : ChatStore → ChatMessage → ConversationMessageDto
  unfolding name_or_unknown
  shown s m =
      let sender = db.users.find_one (has_user_id m.sender_id) s.users in
      record {
        id = m.id;
        sender_id = m.sender_id;
        sender_name = name_or_unknown sender;
        sender_avatar_url = avatar_of sender;
        content = m.content;
        sent_at = m.created_at;
        read_at = m.read_at;
      }

  pub get_conversation_messages :
      Uuid → Uuid → Uuid → ℕ → ℕ → Action ChatStore (List ConversationMessageDto)
  unfolding own_room get_messages shown
  get_conversation_messages room_id user_id tenant_id page limit = do
    own_room room_id user_id tenant_id
    found ← get_messages db room_id tenant_id page limit
    gets (λ s. map (shown s) found.items)

  unfoldable pub mark_conversation_read : Uuid → Uuid → Uuid → Instant → Action ChatStore (Unit {0})
  unfolding own_room
  mark_conversation_read room_id user_id tenant_id now = do
    own_room room_id user_id tenant_id
    modify (λ s. record s {
      messages =
          db.messages.update (unread_from_others room_id user_id tenant_id) (set_read now)
            s.messages;
    })

  unfoldable pub send_conversation_message :
      Uuid → Uuid → Uuid → Text → Uuid → Instant → Action ChatStore ConversationMessageDto
  unfolding own_room send_message shown
  send_conversation_message room_id user_id tenant_id content new_id now = do
    own_room room_id user_id tenant_id
    saved ← send_message db room_id user_id tenant_id content ChatMessageType.text none new_id now
    gets (λ s. shown s saved)
