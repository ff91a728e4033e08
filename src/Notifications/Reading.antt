-- ===== src/Notifications/Reading.antt =====
-- What counts as unread after `markAllRead`, and what `markRead` of another user leaves alone.
use edu_crm_backend.Notifications.Entities.{
  Notification, NotificationStore, NotificationLibraries, notification_live,
}
use edu_crm_backend.Notifications.Send.{has_notification_id}
use edu_crm_backend.Notifications.Inbox.{
  notification_in_tenant, set_notification_read, soft_remove, unread_of, delete_by_id,
  mark_all_read, get_unread_count,
}
use edu_crm_backend.Database.{Instant, Uuid}
use edu_crm_backend.Base.{
  ==_iff, none, some, sym, refl, arith, and_left, ◌&&◌, select, ◌∙◌, true, ◌==◌, length, false, ◌≡◌,
}
use edu_crm_backend.Database.Rows.{count_none, count-update_rows, update_rows}
use edu_crm_backend.Base.Action.{forbidden, not_found, err, ok}
use edu_crm_backend.Database.Lookup.{find_one-update_hidden}

module _ (lib : NotificationLibraries) where
  unread_rows :
      (user_id tenant_id : Uuid) (s : NotificationStore)
      → get_unread_count lib user_id tenant_id s
        ≡ length
            (select (λ n. notification_live n && unread_of user_id tenant_id n) s.notifications)
  unfolding get_unread_count
  unread_rows user_id tenant_id s = lib.notifications.count_lem _ _

  all_read_rows :
      (user_id tenant_id : Uuid) (now : Instant) (s : NotificationStore)
      → (mark_all_read lib user_id tenant_id now s).1.notifications
        ≡ update_rows (unread_of user_id tenant_id) (set_notification_read now) s.notifications
  unfolding mark_all_read
  all_read_rows user_id tenant_id now s = lib.notifications.update_lem _ _ _

  own_hit :
      (user_id tenant_id : Uuid) (now : Instant) (n : Notification)
      → unread_of user_id tenant_id n ≡ true
      → (notification_live n && unread_of user_id tenant_id (set_notification_read now n)) ≡ false
  own_hit user_id tenant_id now n h = ground arith

  own_miss :
      (user_id tenant_id : Uuid) (n : Notification)
      → unread_of user_id tenant_id n ≡ false
      → (notification_live n && unread_of user_id tenant_id n) ≡ false
  own_miss user_id tenant_id n h = rw h (ground arith)

  other_hit :
      (user_id tenant_id other t : Uuid) (now : Instant) (n : Notification)
      → (user_id == other) ≡ false
      → unread_of user_id tenant_id n ≡ true
      → (notification_live n && unread_of other t (set_notification_read now n))
        ≡ (notification_live n && unread_of other t n)
  other_hit user_id tenant_id other t now n apart h =
      let mine : (n.user_id == user_id) ≡ true = and_left _ _ h in
      let there : (n.user_id == other) ≡ false = ground arith in rw there refl

  -- After `markAllRead` of a user in a tenant nothing there counts as unread for that user, and every
  -- other user has as many unread notifications, in each tenant, as before.
  pub mark_all_read_unread :
      (user_id tenant_id : Uuid) (now : Instant) (s : NotificationStore)
      → let s' = (mark_all_read lib user_id tenant_id now s).1 in
        (get_unread_count lib user_id tenant_id s' ≡ 0)
        × ((other t : Uuid)
            → (user_id == other) ≡ false
            → get_unread_count lib other t s' ≡ get_unread_count lib other t s)
  mark_all_read_unread user_id tenant_id now s =
      let rows = all_read_rows user_id tenant_id now s in
      (
        unread_rows user_id tenant_id _
            ∙ rw rows (
                count-update_rows _ (λ n. false) _ _ s.notifications (own_hit user_id tenant_id now)
                  (own_miss user_id tenant_id)
                ∙ count_none s.notifications),
        λ other t apart.
            unread_rows other t _
            ∙ (rw rows (
                  count-update_rows _ (λ n. notification_live n && unread_of other t n) _ _
                    s.notifications (λ n h. other_hit user_id tenant_id other t now n apart h)
                    (λ n h. refl))
                ∙ sym (unread_rows other t s)),
      )

  refused :
      (id user_id tenant_id : Uuid) (now : Instant) (s : NotificationStore) (n : Notification)
      → lib.notifications.find_one (notification_in_tenant id tenant_id) s.notifications ≡ some n
      → (n.user_id == user_id) ≡ false
      → delete_by_id lib id user_id tenant_id now s
        ≡ (err (forbidden "You cannot delete another user's notification"), s)
  unfolding delete_by_id soft_remove
  refused id user_id tenant_id now s n found other = ground arith

  deleted :
      (id user_id tenant_id : Uuid) (now : Instant) (s : NotificationStore) (n : Notification)
      → lib.notifications.find_one (notification_in_tenant id tenant_id) s.notifications ≡ some n
      → (n.user_id == user_id) ≡ true
      → ((delete_by_id lib id user_id tenant_id now s).0 ≡ ok tt)
        × ((delete_by_id lib id user_id tenant_id now s).1.notifications
            ≡ update_rows
                (has_notification_id n.id)
                (λ r. record r { deleted_at = some now })
                s.notifications)
  unfolding delete_by_id soft_remove
  deleted id user_id tenant_id now s n found own = (
    ground arith,
    ground (
      arith,
      lib.notifications.update_lem (has_notification_id n.id)
          (λ r. record r { deleted_at = some now }) s.notifications,
    ),
  )

  missing :
      (id user_id tenant_id : Uuid) (now : Instant) (s : NotificationStore)
      → lib.notifications.find_one (notification_in_tenant id tenant_id) s.notifications ≡ none
      → delete_by_id lib id user_id tenant_id now s ≡ (err (not_found "Notification not found"), s)
  unfolding delete_by_id soft_remove
  missing id user_id tenant_id now s lost = ground arith

  -- A user who is not the owner is refused the deletion of a notification, with nothing changed; the
  -- owner deletes it, and afterwards it is not there to delete.
  pub delete_by_id_owner :
      (id user_id tenant_id : Uuid) (now later : Instant) (s : NotificationStore) (n : Notification)
      → lib.notifications.find_one (notification_in_tenant id tenant_id) s.notifications ≡ some n
      → ((n.user_id == user_id) ≡ false
          → delete_by_id lib id user_id tenant_id now s
            ≡ (err (forbidden "You cannot delete another user's notification"), s))
        × ((n.user_id == user_id) ≡ true
            → let s' = (delete_by_id lib id user_id tenant_id now s).1 in
              ((delete_by_id lib id user_id tenant_id now s).0 ≡ ok tt)
              × (delete_by_id lib id user_id tenant_id later s'
                  ≡ (err (not_found "Notification not found"), s')))
  delete_by_id_owner id user_id tenant_id now later s n found = (
    λ other. refused id user_id tenant_id now s n found other,
    λ own.
        let (done, rows) = deleted id user_id tenant_id now s n found own in
        let named : n.id ≡ id =
          (==_iff _ _).0 (and_left _ _ (lib.notifications.find_one_fits _ _ n found)) in
        (
          done,
          missing id user_id tenant_id later _ (
              rw rows (
                find_one-update_hidden lib.notifications (notification_in_tenant id tenant_id)
                  (has_notification_id n.id) (λ r. record r { deleted_at = some now })
                  s.notifications (λ r fits. rw named (and_left _ _ fits)) (λ r. refl))),
        ),
  )
