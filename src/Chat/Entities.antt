-- ===== src/Chat/Entities.antt =====
-- modules/chat/entities/chat.entity.ts: rooms and messages, without the relations. The content of a
-- message is a list of character codes, since the service cuts it.
use edu_crm_backend.Base.{Option, Bool, List, String}
use edu_crm_backend.Database.{is_live, Instant, Repository, Uuid}
use edu_crm_backend.Users.Entity.{User, user_live}
use edu_crm_backend.Text.{Text}
use edu_crm_backend.Shared.Enums.{ChatMessageType}

pub record ChatRoom : Type 0 where
  pub id : Uuid
  pub deleted_at : Option Instant
  pub tenant_id : Uuid
  pub name : Option String
  pub is_group : Bool
  pub room_type : String
  pub participant_ids : List Uuid
  pub last_message_at : Option Instant
  pub last_message : Option Text
  pub is_active : Bool

pub record ChatMessage : Type 0 where
  pub id : Uuid
  pub created_at : Instant
  pub deleted_at : Option Instant
  pub tenant_id : Uuid
  pub room_id : Uuid
  pub sender_id : Uuid
  pub content : Text
  pub type : ChatMessageType
  pub file_url : Option String
  pub file_name : Option String
  pub is_read : Bool
  pub read_at : Option Instant
  pub reply_to_id : Option Uuid
  pub is_deleted : Bool

abbrev pub room_live : ChatRoom → Bool
room_live r = is_live r.deleted_at

abbrev pub message_live : ChatMessage → Bool
message_live m = is_live m.deleted_at

-- The tables of the service. It emits no events.
pub record ChatStore : Type 0 where
  pub rooms : List ChatRoom
  pub messages : List ChatMessage
  pub users : List User

pub record ChatDb : Type 0 where
  pub rooms : Repository room_live
  pub messages : Repository message_live
  pub users : Repository user_live
