-- ===== src/Chat/Rooms.antt =====
-- The rooms of modules/chat/chat.service.ts. The id of a new row is an argument.
use edu_crm_backend.Chat.Entities.{ChatRoom, ChatStore, ChatDb}
use edu_crm_backend.Database.{Uuid}
use edu_crm_backend.Base.{
  [], ◌∷◌, not, false, includes, ◌&&◌, true, none, some, ◌==◌, List, Bool, Option, String,
}
use edu_crm_backend.Base.Action.{not_found, or_throw, pure, modify, ◌>>=◌, ◌>>◌, gets, Action}
use edu_crm_backend.Users.Entity.{User}

-- `where: { id, tenantId }`
abbrev pub room_in_tenant : Uuid → Uuid → ChatRoom → Bool
room_in_tenant id tenant_id r = r.id == id && r.tenant_id == tenant_id

abbrev pub has_room_id : Uuid → ChatRoom → Bool
has_room_id id r = r.id == id

-- The condition of `createOrGetDirectRoom`.
abbrev pub direct_between : Uuid → Uuid → Uuid → ChatRoom → Bool
direct_between u1 u2 tenant_id r =
    (r.tenant_id == tenant_id && not r.is_group)
    && (includes r.participant_ids u1 && includes r.participant_ids u2)

unfoldable pub new_room : Uuid → Uuid → Option String → Bool → String → List Uuid → ChatRoom
new_room id tenant_id name is_group room_type participant_ids = record {
  id = id;
  deleted_at = none;
  tenant_id = tenant_id;
  name = name;
  is_group = is_group;
  room_type = room_type;
  participant_ids = participant_ids;
  last_message_at = none;
  last_message = none;
  is_active = true;
}

module _ (db : ChatDb) where
  unfoldable pub save_room : ChatRoom → Action ChatStore ChatRoom
  save_room room = do modify (λ s. record s { rooms = db.rooms.insert room s.rooms }); pure room

  -- `if (existing) return existing`
  unfoldable pub direct_or_new : Option ChatRoom → ChatRoom → Action ChatStore ChatRoom
  unfolding save_room
  direct_or_new none room = save_room room
  direct_or_new (some existing) room = pure existing

  unfoldable pub create_or_get_direct_room : Uuid → Uuid → Uuid → Uuid → Action ChatStore ChatRoom
  unfolding direct_or_new new_room
  create_or_get_direct_room u1 u2 tenant_id new_id = do
    existing ← gets (λ s. db.rooms.find_one (direct_between u1 u2 tenant_id) s.rooms)
    direct_or_new existing (new_room new_id tenant_id none false "direct" (u1 ∷ u2 ∷ []))

  pub create_group_room : String → List Uuid → Uuid → Uuid → Action ChatStore ChatRoom
  unfolding save_room new_room
  create_group_room name participant_ids tenant_id new_id =
      save_room (new_room new_id tenant_id (some name) true "group" participant_ids)

  -- The rooms in the order in which the database returns them, the last message first.
  unfoldable pub get_my_rooms : Uuid → Uuid → Action ChatStore (List ChatRoom)
  get_my_rooms user_id tenant_id = gets (λ s.
      db.rooms.find
        (λ r. r.tenant_id == tenant_id && (includes r.participant_ids user_id && r.is_active))
        s.rooms)

  unfoldable pub find_room : Uuid → Uuid → String → Action ChatStore ChatRoom
  find_room room_id tenant_id missing = do
    found ← gets (λ s. db.rooms.find_one (room_in_tenant room_id tenant_id) s.rooms)
    or_throw found (not_found missing)

  pub get_room_participants : Uuid → Uuid → Action ChatStore (List User)
  unfolding find_room
  get_room_participants room_id tenant_id = do
    room ← find_room room_id tenant_id "Chat room not found"
    gets (λ s. db.users.find (λ u. includes room.participant_ids u.id) s.users)

  pub update_room_participants : Uuid → List Uuid → Uuid → Action ChatStore ChatRoom
  unfolding find_room
  update_room_participants room_id participant_ids tenant_id = do
    room ← find_room room_id tenant_id "Chat room not found"
    modify (λ s. record s {
      rooms =
          db.rooms.update (has_room_id room.id)
            (λ r. record r { participant_ids = participant_ids }) s.rooms;
    })
    pure (record room { participant_ids = participant_ids })
