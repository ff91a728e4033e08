-- ===== src/Chat/Ownership.antt =====
-- Who may delete, read and write: the checks of modules/chat/chat.service.ts on the sender and on
-- the participants.
use edu_crm_backend.Shared.Enums.{ChatMessageType}
use edu_crm_backend.Chat.Entities.{message_live, ChatRoom, ChatMessage, ChatStore, ChatDb}
use edu_crm_backend.Database.{Instant, Uuid}
use edu_crm_backend.Text.{Text}
use edu_crm_backend.Base.{
  sym, ap, ==_refl, ◌∙◌, select, length, ◌+◌, true, ◌∷◌, arith, and_left, ==_iff, Bool-cases,
  Option-cases, ◌&&◌, ◌==◌, Bool, none, false, inr, includes, refl, some, inl, ◌⊎◌, All-of_mem, ◌≡◌,
  Memᴰ, All, List,
}
use edu_crm_backend.Database.Rows.{All-update_rows_unique, update_rows, UniqueBy}
use edu_crm_backend.Chat.Messages.{
  new_message, send_message, has_message_id, set_deleted, delete_message,
}
use edu_crm_backend.Chat.Rooms.{find_room, room_in_tenant}
use edu_crm_backend.Base.Action.{err, forbidden}
use edu_crm_backend.Chat.Conversations.{
  count_unread, unread_for, own_room, send_conversation_message,
}
use edu_crm_backend.Chat.Unread.{unread_rows}

-- A message is as before, or it is a message of the user, marked as deleted.
abbrev pub OwnChange : Uuid → List ChatMessage → ChatMessage → Type 0
OwnChange user_id rows m =
    (x : ChatMessage) × Memᴰ x rows × ((m ≡ x) ⊎ ((m ≡ set_deleted x) × (x.sender_id ≡ user_id)))

unchanged : (user_id : Uuid) (rows : List ChatMessage) → All (OwnChange user_id rows) rows
unchanged user_id rows = All-of_mem (OwnChange user_id rows) rows λ m k. (m, k, inl refl)

own_deleted :
    (user_id : Uuid) (rows : List ChatMessage) (m : ChatMessage)
    → UniqueBy (λ x. x.id) rows
    → Memᴰ m rows
    → m.sender_id ≡ user_id
    → All (OwnChange user_id rows) (update_rows (has_message_id m.id) set_deleted rows)
own_deleted user_id rows m unique k own =
    All-update_rows_unique (OwnChange user_id rows) (λ x. x.id) set_deleted rows m unique k
      (unchanged user_id rows) (m, k, inr (refl, own))

-- Deleting a message changes no message but the user's own: with unique ids, each message after it
-- is a message from before, as it was, or it is a message that the user sent, marked as deleted.
pub delete_message_own :
    (db : ChatDb) (message_id user_id tenant_id : Uuid) (s : ChatStore)
    → UniqueBy (λ m. m.id) s.messages
    → All
        (OwnChange user_id s.messages)
        (delete_message db message_id user_id tenant_id s).1.messages
unfolding delete_message
delete_message_own db message_id user_id tenant_id s unique =
    let p : ChatMessage → Bool = λ m. m.id == message_id && m.tenant_id == tenant_id in
    elim (Option-cases (db.messages.find_one p s.messages)) [
      | inl missed ↦ rw missed (unchanged user_id s.messages)
      | inr (m, found) ↦ elim (Bool-cases (m.sender_id == user_id)) [
        | inl own ↦
            let same : m.id ≡ message_id =
              (==_iff _ _).0 (and_left _ _ (db.messages.find_one_fits p s.messages m found)) in
            rw
              (
                found,
                own,
                db.messages.update_lem (has_message_id message_id) set_deleted s.messages,
              )
              (rw same at (
                own_deleted user_id s.messages m unique
                  (db.messages.find_one_listed p s.messages m found) ((==_iff _ _).0 own)))
        | inr other ↦ rw (found, other) (unchanged user_id s.messages)
      ]
    ]

refused_room :
    (db : ChatDb) (room_id user_id tenant_id : Uuid) (s : ChatStore) (room : ChatRoom)
    → db.rooms.find_one (room_in_tenant room_id tenant_id) s.rooms ≡ some room
    → includes room.participant_ids user_id ≡ false
    → own_room db room_id user_id tenant_id s
      ≡ (err (forbidden "You are not a participant of this conversation"), s)
unfolding own_room find_room
refused_room db room_id user_id tenant_id s room found out = ground arith

apart :
    (ids : List Uuid) (u v : Uuid)
    → includes ids u ≡ false
    → includes ids v ≡ true
    → (u == v) ≡ false
apart ids u v out inside = elim (Bool-cases (u == v)) [
  | inl same ↦ let e : u ≡ v = (==_iff u v).0 same in cc
  | inr other ↦ other
]

sent_rows :
    (db : ChatDb) (room_id user_id tenant_id : Uuid) (content : Text) (new_id : Uuid)
    (now : Instant) (s : ChatStore) (room : ChatRoom)
    → db.rooms.find_one (room_in_tenant room_id tenant_id) s.rooms ≡ some room
    → (send_message db room_id user_id tenant_id content ChatMessageType.text none new_id now
        s).1.messages
      ≡ new_message new_id room_id user_id tenant_id content ChatMessageType.text none now
        ∷ s.messages
unfolding send_message find_room
sent_rows db room_id user_id tenant_id content new_id now s room found = ground (
  arith,
  db.messages.insert_lem
      (new_message new_id room_id user_id tenant_id content ChatMessageType.text none now)
      s.messages,
)

new_unread :
    (room_id user_id v tenant_id : Uuid) (content : Text) (new_id : Uuid) (now : Instant)
    (rows : List ChatMessage)
    → (user_id == v) ≡ false
    → let fits : ChatMessage → Bool = λ m. message_live m && unread_for room_id v tenant_id m in
      length (
        select fits (
          new_message new_id room_id user_id tenant_id content ChatMessageType.text none now
          ∷ rows))
      ≡ length (select fits rows) + 1
unfolding new_message
new_unread room_id user_id v tenant_id content new_id now rows other =
    rw (==_refl room_id, ==_refl tenant_id, other) (omega arith)

-- A user who is not a participant of a live room of the tenant cannot send to it over
-- `conversations`, and the attempt changes nothing. Over `rooms` the same user sends: the message
-- is then in the table, under the user's name, and counts as one unread message more of the room
-- for each of its participants.
pub send_message_outsider :
    (db : ChatDb) (room_id user_id tenant_id : Uuid) (content : Text) (new_id : Uuid)
    (now : Instant) (s : ChatStore) (room : ChatRoom)
    → db.rooms.find_one (room_in_tenant room_id tenant_id) s.rooms ≡ some room
    → includes room.participant_ids user_id ≡ false
    → let s' =
        (send_message db room_id user_id tenant_id content ChatMessageType.text none new_id now
          s).1 in
      (send_conversation_message db room_id user_id tenant_id content new_id now s
        ≡ (err (forbidden "You are not a participant of this conversation"), s))
      × ((m : ChatMessage) × Memᴰ m s'.messages
          × (m.sender_id ≡ user_id)
          × (m.room_id ≡ room_id)
          × (m.content ≡ content))
      × ((v : Uuid)
          → includes room.participant_ids v ≡ true
          → count_unread db room_id v tenant_id s' ≡ count_unread db room_id v tenant_id s + 1)
unfolding send_conversation_message new_message
send_message_outsider db room_id user_id tenant_id content new_id now s room found out =
    let no = refused_room db room_id user_id tenant_id s room found out in
    let rows = sent_rows db room_id user_id tenant_id content new_id now s room found in
    (
      ground arith,
      (
        new_message new_id room_id user_id tenant_id content ChatMessageType.text none now,
        rw rows (Memᴰ.head refl),
        refl,
        refl,
        refl,
      ),
      λ v inside.
          unread_rows db room_id v tenant_id _
          ∙ (rw rows (
                new_unread room_id user_id v tenant_id content new_id now s.messages
                  (apart room.participant_ids user_id v out inside))
              ∙ ap (λ n. n + 1) (sym (unread_rows db room_id v tenant_id s))),
    )
