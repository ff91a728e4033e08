-- ===== src/Chat/Direct.antt =====
-- There is one direct room for two users.
use edu_crm_backend.Chat.Entities.{room_live, ChatRoom, ChatStore, ChatDb}
use edu_crm_backend.Chat.Rooms.{
  save_room, direct_or_new, direct_between, new_room, create_or_get_direct_room,
}
use edu_crm_backend.Database.{Uuid}
use edu_crm_backend.Base.{
  arith, includes, and_both, and_right, not, refl, ◌&&◌, some, ◌==◌, and_left, ==_refl, inr, inl,
  [], ◌∷◌, Option-cases, true, false, none, Memᴰ, ◌≡◌,
}
use edu_crm_backend.Base.Action.{ok}
use edu_crm_backend.Database.Lookup.{find_one_total}

module _ (db : ChatDb) where
  got :
      (u1 u2 tenant_id new_id : Uuid) (s : ChatStore) (r : ChatRoom)
      → db.rooms.find_one (direct_between u1 u2 tenant_id) s.rooms ≡ some r
      → create_or_get_direct_room db u1 u2 tenant_id new_id s ≡ (ok r, s)
  unfolding create_or_get_direct_room direct_or_new
  got u1 u2 tenant_id new_id s r found = rw found refl

  made :
      (u1 u2 tenant_id new_id : Uuid) (s : ChatStore)
      → db.rooms.find_one (direct_between u1 u2 tenant_id) s.rooms ≡ none
      → (create_or_get_direct_room db u1 u2 tenant_id new_id s).1.rooms
        ≡ new_room new_id tenant_id none false "direct" (u1 ∷ u2 ∷ []) ∷ s.rooms
  unfolding create_or_get_direct_room direct_or_new save_room
  made u1 u2 tenant_id new_id s missed = rw missed (db.rooms.insert_lem _ _)

  swap :
      (u1 u2 tenant_id : Uuid) (r : ChatRoom)
      → direct_between u1 u2 tenant_id r ≡ true
      → direct_between u2 u1 tenant_id r ≡ true
  swap u1 u2 tenant_id r h =
      let place = and_left (r.tenant_id == tenant_id && not r.is_group) _ h in
      let both = and_right (r.tenant_id == tenant_id && not r.is_group) _ h in
      and_both (r.tenant_id == tenant_id && not r.is_group) _ place (
        and_both _ _ (and_right (includes r.participant_ids u1) _ both)
          (and_left (includes r.participant_ids u1) _ both))

  fits_new :
      (u1 u2 tenant_id new_id : Uuid)
      → direct_between u1 u2 tenant_id
          (new_room new_id tenant_id none false "direct" (u1 ∷ u2 ∷ []))
        ≡ true
  unfolding new_room
  fits_new u1 u2 tenant_id new_id = rw (==_refl tenant_id, ==_refl u1, ==_refl u2) (ground arith)

  there :
      (u1 u2 tenant_id new_id : Uuid) (s : ChatStore)
      → (r : ChatRoom) × Memᴰ r (create_or_get_direct_room db u1 u2 tenant_id new_id s).1.rooms
        × (room_live r ≡ true)
        × (direct_between u1 u2 tenant_id r ≡ true)
  unfolding new_room
  there u1 u2 tenant_id new_id s =
      elim (Option-cases (db.rooms.find_one (direct_between u1 u2 tenant_id) s.rooms)) [
        | inl missed ↦ (
          new_room new_id tenant_id none false "direct" (u1 ∷ u2 ∷ []),
          rw (made u1 u2 tenant_id new_id s missed) (Memᴰ.head refl),
          refl,
          fits_new u1 u2 tenant_id new_id,
        )
        | inr (r, found) ↦ (
          r,
          rw (got u1 u2 tenant_id new_id s r found) (db.rooms.find_one_listed _ _ r found),
          db.rooms.find_one_live _ _ r found,
          db.rooms.find_one_fits _ _ r found,
        )
      ]

  -- Once two users have asked for their direct room, asking again, in either order and with any new
  -- id, gives a room that both are in and makes none.
  pub create_or_get_direct_room_again :
      (u1 u2 tenant_id new_id other_id : Uuid) (s : ChatStore)
      → let s' = (create_or_get_direct_room db u1 u2 tenant_id new_id s).1 in
        ((r : ChatRoom) × (create_or_get_direct_room db u1 u2 tenant_id other_id s' ≡ (ok r, s'))
          × (direct_between u1 u2 tenant_id r ≡ true))
        × ((r : ChatRoom) × (create_or_get_direct_room db u2 u1 tenant_id other_id s' ≡ (ok r, s'))
            × (direct_between u1 u2 tenant_id r ≡ true))
  create_or_get_direct_room_again u1 u2 tenant_id new_id other_id s =
      let s' : ChatStore = (create_or_get_direct_room db u1 u2 tenant_id new_id s).1 in
      let (r, m, alive, fits) = there u1 u2 tenant_id new_id s in
      let (x, e) =
        find_one_total db.rooms (direct_between u1 u2 tenant_id) s'.rooms r m alive fits in
      let (y, f) =
        find_one_total db.rooms (direct_between u2 u1 tenant_id) s'.rooms r m alive
          (swap u1 u2 tenant_id r fits) in
      (
        (x, got u1 u2 tenant_id other_id s' x e, db.rooms.find_one_fits _ _ x e),
        (
          y,
          got u2 u1 tenant_id other_id s' y f,
          swap u2 u1 tenant_id y (db.rooms.find_one_fits _ _ y f),
        ),
      )
