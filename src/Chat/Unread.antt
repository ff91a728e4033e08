-- ===== src/Chat/Unread.antt =====
-- What counts as unread, after reading and after sending.
use edu_crm_backend.Chat.Entities.{message_live, ChatMessage, ChatStore, ChatDb}
use edu_crm_backend.Chat.Conversations.{
  count_unread, unread_for, set_read, own_room, mark_conversation_read,
}
use edu_crm_backend.Database.{Instant, Uuid}
use edu_crm_backend.Base.{
  and_right, not, and_left, refl, sym, select, length, ◌∙◌, Bool, true, arith, ◌&&◌, false, ◌==◌,
  ◌≡◌,
}
use edu_crm_backend.Chat.Rooms.{find_room}
use edu_crm_backend.Base.Action.{ok}
use edu_crm_backend.Database.Rows.{count_none, count-update_rows, update_rows}
use edu_crm_backend.Chat.Messages.{unread_from_others}

flip_not : (b : Bool) → not b ≡ true → b ≡ false
flip_not true h = cc
flip_not false h = refl

never : (l a b c d : Bool) → (l && (a && (b && false) && c)) ≡ (l && (d && false))
never l a b c d = ground arith

kept :
    (l here mine theirs read gone : Bool)
    → (here && (not mine && not read)) ≡ false
    → (l && ((here && (not theirs && not read)) && not gone))
      ≡ (l && (((here && (not theirs && not read)) && not gone) && mine))
kept l here true theirs read gone h = ground arith
kept l true false theirs true gone h = ground arith
kept l true false theirs false gone h = cc
kept l false false theirs read gone h = ground arith

module _ (db : ChatDb) where
  pub unread_rows :
      (room_id user_id tenant_id : Uuid) (s : ChatStore)
      → count_unread db room_id user_id tenant_id s
        ≡ length (select (λ m. message_live m && unread_for room_id user_id tenant_id m) s.messages)
  unfolding count_unread
  unread_rows room_id user_id tenant_id s = db.messages.count_lem _ _

  pub read_rows :
      (room_id user_id tenant_id : Uuid) (now : Instant) (s : ChatStore)
      → (mark_conversation_read db room_id user_id tenant_id now s).0 ≡ ok tt
      → (mark_conversation_read db room_id user_id tenant_id now s).1.messages
        ≡ update_rows (unread_from_others room_id user_id tenant_id) (set_read now) s.messages
  unfolding mark_conversation_read own_room find_room
  read_rows room_id user_id tenant_id now s h = ground (
    arith,
    db.messages.update_lem (unread_from_others room_id user_id tenant_id) (set_read now) s.messages,
  )

  room_read : Uuid → Uuid → Uuid → Uuid → ChatMessage → Bool
  room_read room_id user_id tenant_id v m =
      message_live m && (unread_for room_id v tenant_id m && m.sender_id == user_id)

  own_read :
      (room_id user_id tenant_id : Uuid) (now : Instant) (m : ChatMessage)
      → unread_from_others room_id user_id tenant_id m ≡ true
      → (message_live m && unread_for room_id user_id tenant_id (set_read now m)) ≡ false
  own_read room_id user_id tenant_id now m h = ground arith

  own_left :
      (room_id user_id tenant_id : Uuid) (m : ChatMessage)
      → unread_from_others room_id user_id tenant_id m ≡ false
      → (message_live m && unread_for room_id user_id tenant_id m) ≡ false
  own_left room_id user_id tenant_id m h = rw h (ground arith)

  away_read :
      (room_id other user_id v tenant_id : Uuid) (now : Instant) (m : ChatMessage)
      → (other == room_id) ≡ false
      → unread_from_others room_id user_id tenant_id m ≡ true
      → (message_live m && unread_for other v tenant_id (set_read now m))
        ≡ (message_live m && unread_for other v tenant_id m)
  away_read room_id other user_id v tenant_id now m apart h =
      let here : (m.room_id == room_id) ≡ true =
        and_left _ _ (and_left (m.room_id == room_id && m.tenant_id == tenant_id) _ h) in
      let there : (m.room_id == other) ≡ false = ground arith in rw there refl

  others_read :
      (room_id user_id v tenant_id : Uuid) (now : Instant) (m : ChatMessage)
      → unread_from_others room_id user_id tenant_id m ≡ true
      → (message_live m && unread_for room_id v tenant_id (set_read now m))
        ≡ room_read room_id user_id tenant_id v m
  unfolding room_read
  others_read room_id user_id v tenant_id now m h =
      let other : (m.sender_id == user_id) ≡ false =
        flip_not _
          (and_left _ _ (and_right (m.room_id == room_id && m.tenant_id == tenant_id) _ h)) in
      rw other (never _ _ _ _ _)

  others_left :
      (room_id user_id v tenant_id : Uuid) (m : ChatMessage)
      → unread_from_others room_id user_id tenant_id m ≡ false
      → (message_live m && unread_for room_id v tenant_id m)
        ≡ room_read room_id user_id tenant_id v m
  unfolding room_read
  others_left room_id user_id v tenant_id m h =
      kept (message_live m) (m.room_id == room_id && m.tenant_id == tenant_id)
        (m.sender_id == user_id) (m.sender_id == v) m.is_read m.is_deleted h

  -- When a participant has read a conversation, no message in it counts as unread for that user, and
  -- in every other room each user has as many unread messages as before.
  pub mark_conversation_read_unread :
      (room_id user_id tenant_id : Uuid) (now : Instant) (s : ChatStore)
      → (mark_conversation_read db room_id user_id tenant_id now s).0 ≡ ok tt
      → let s' = (mark_conversation_read db room_id user_id tenant_id now s).1 in
        (count_unread db room_id user_id tenant_id s' ≡ 0)
        × ((other v : Uuid)
            → (other == room_id) ≡ false
            → count_unread db other v tenant_id s' ≡ count_unread db other v tenant_id s)
  mark_conversation_read_unread room_id user_id tenant_id now s done =
      let rows = read_rows room_id user_id tenant_id now s done in
      (
        unread_rows room_id user_id tenant_id _
            ∙ rw rows (
                count-update_rows _ (λ m. false) _ _ s.messages
                  (own_read room_id user_id tenant_id now) (own_left room_id user_id tenant_id)
                ∙ count_none s.messages),
        λ other v apart.
            unread_rows other v tenant_id _
            ∙ (rw rows (
                  count-update_rows _ (λ m. message_live m && unread_for other v tenant_id m) _ _
                    s.messages (λ m h. away_read room_id other user_id v tenant_id now m apart h)
                    (λ m h. refl))
                ∙ sym (unread_rows other v tenant_id s)),
      )

  -- A message is read once for the whole room: when one participant has read a conversation, the
  -- only messages in it that still count as unread, for any user, are those that the participant
  -- sent.
  pub mark_conversation_read_others :
      (room_id user_id v tenant_id : Uuid) (now : Instant) (s : ChatStore)
      → (mark_conversation_read db room_id user_id tenant_id now s).0 ≡ ok tt
      → count_unread db room_id v tenant_id
          (mark_conversation_read db room_id user_id tenant_id now s).1
        ≡ length (
            select
              (λ m. message_live m && (unread_for room_id v tenant_id m && m.sender_id == user_id))
              s.messages)
  unfolding room_read
  mark_conversation_read_others room_id user_id v tenant_id now s done =
      unread_rows room_id v tenant_id _
      ∙ rw (read_rows room_id user_id tenant_id now s done) (
          count-update_rows _ _ _ _ s.messages (others_read room_id user_id v tenant_id now)
            (others_left room_id user_id v tenant_id))
