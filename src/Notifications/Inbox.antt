-- ===== src/Notifications/Inbox.antt =====
-- Reading and deleting: `getUnread`, `getUnreadCount`, `markRead`, `markAllRead`, `remove`,
-- `deleteById` and `getAll` of modules/notifications/notifications.service.ts.
use edu_crm_backend.Notifications.Entities.{
  marked_read, all_marked_read, Notification, NotificationStore, NotificationLibraries, emit,
}
use edu_crm_backend.Notifications.Send.{has_notification_id}
use edu_crm_backend.Base.{
  ◌/◌, ◌+◌, ◌*◌, ◌-◌, not, ◌&&◌, none, String, some, ◌==◌, false, Bool, take, true, Option, ℕ, List,
}
use edu_crm_backend.Database.{Uuid, Instant}
use edu_crm_backend.Base.Action.{
  forbidden, throw_if, pure, not_found, or_throw, gets, ◌>>◌, ◌>>=◌, modify, Action,
}
use edu_crm_backend.Common.Pagination.{drop}

-- A stored tenant that is the given one.
abbrev pub stored_tenant : Uuid → Option Uuid → Bool
stored_tenant tenant_id none = false
stored_tenant tenant_id (some t) = t == tenant_id

-- `where: { userId, tenantId, isRead: false }`
abbrev pub unread_of : Uuid → Uuid → Notification → Bool
unread_of user_id tenant_id n =
    n.user_id == user_id && (stored_tenant tenant_id n.tenant_id && not n.is_read)

-- `id = :id AND userId = :userId`
abbrev pub own_notification : Uuid → Uuid → Notification → Bool
own_notification id user_id n = n.id == id && n.user_id == user_id

-- `where: { id, tenantId }`
abbrev pub notification_in_tenant : Uuid → Uuid → Notification → Bool
notification_in_tenant id tenant_id n = n.id == id && stored_tenant tenant_id n.tenant_id

abbrev pub set_notification_read : Instant → Notification → Notification
set_notification_read now n = record n { is_read = true; read_at = some now }

pub record NotificationPage : Type 0 where
  pub rows : List Notification
  pub total : ℕ
  pub page : ℕ
  pub limit : ℕ
  pub total_pages : ℕ

module _ (lib : NotificationLibraries) where
  -- The newest first, at most fifty.
  pub get_unread : Uuid → Uuid → NotificationStore → List Notification
  get_unread user_id tenant_id s =
      take 50 (lib.notifications.find (unread_of user_id tenant_id) s.notifications)

  unfoldable pub get_unread_count : Uuid → Uuid → NotificationStore → ℕ
  get_unread_count user_id tenant_id s =
      lib.notifications.count (unread_of user_id tenant_id) s.notifications

  pub mark_read : Uuid → Uuid → Instant → Action NotificationStore (Unit {0})
  mark_read id user_id now = do
    modify (λ s. record s {
      notifications =
          lib.notifications.update (own_notification id user_id) (set_notification_read now)
            s.notifications;
    })
    emit (marked_read user_id id)

  unfoldable pub mark_all_read : Uuid → Uuid → Instant → Action NotificationStore (Unit {0})
  mark_all_read user_id tenant_id now = do
    modify (λ s. record s {
      notifications =
          lib.notifications.update (unread_of user_id tenant_id) (set_notification_read now)
            s.notifications;
    })
    emit (all_marked_read user_id)

  unfoldable pub soft_remove : Uuid → Instant → Action NotificationStore (Unit {0})
  soft_remove id now = modify (λ s. record s {
    notifications =
        lib.notifications.update (has_notification_id id) (λ n. record n { deleted_at = some now })
          s.notifications;
  })

  pub remove_notification : Uuid → Uuid → Instant → Action NotificationStore String
  unfolding soft_remove
  remove_notification id user_id now = do
    found ← gets (λ s. lib.notifications.find_one (own_notification id user_id) s.notifications)
    notification ← or_throw found (not_found "Notification not found for this user")
    soft_remove notification.id now
    pure "Notification deleted successfully"

  unfoldable pub delete_by_id : Uuid → Uuid → Uuid → Instant → Action NotificationStore (Unit {0})
  unfolding soft_remove
  delete_by_id notification_id user_id tenant_id now = do
    found ← gets (λ s.
        lib.notifications.find_one
          (λ n. n.id == notification_id && stored_tenant tenant_id n.tenant_id) s.notifications)
    notification ← or_throw found (not_found "Notification not found")
    throw_if (not (notification.user_id == user_id))
        (forbidden "You cannot delete another user's notification")
    soft_remove notification.id now

  -- `Math.ceil(total / limit)`
  pub get_all : Uuid → Uuid → ℕ → ℕ → NotificationStore → NotificationPage
  get_all user_id tenant_id page limit s =
      let fits : Notification → Bool =
        λ n. n.user_id == user_id && stored_tenant tenant_id n.tenant_id in
      let total = lib.notifications.count fits s.notifications in
      record {
        rows = take limit (drop ((page - 1) * limit) (lib.notifications.find fits s.notifications));
        total = total;
        page = page;
        limit = limit;
        total_pages = (total + limit - 1) / limit;
      }
