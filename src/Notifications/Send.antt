-- ===== src/Notifications/Send.antt =====
-- `getTemplate`, `create`, `send` and its event handlers, and `createBulk` of
-- modules/notifications/notifications.service.ts.
use edu_crm_backend.Notifications.Entities.{
  notification_created, Notification, NotificationTemplate, NotificationStore,
  NotificationLibraries, emit,
}
use edu_crm_backend.Shared.Enums.{NotificationStatus, NotificationChannel}
use edu_crm_backend.Database.{Instant, Uuid}
use edu_crm_backend.Base.Action.{
  forbidden, unauthorized, conflict, bad_request, of_result, recover, gets, not_found, pure,
  internal, ◌>>◌, ◌>>=◌, modify, Error, Action,
}
use edu_crm_backend.Base.{
  str_eq, [], or_else, ◌&&◌, false, ◌==◌, ◌∷◌, some, none, if◌then◌else◌, Bool, String, List,
  Option,
}
use edu_crm_backend.Notifications.Transport.{send_sms, send_plain_email}
use edu_crm_backend.Users.Entity.{truthy, has_user_id, User}

pub record SendNotificationPayload : Type 0 where
  pub user_id : Uuid
  pub tenant_id : Option Uuid
  pub channel : NotificationChannel
  pub event : Option String
  pub title : Option String
  pub body : Option String
  pub email : Option String
  pub phone : Option String
  pub data_text : String

-- `a || b` on texts
abbrev pub or_text : Option String → Option String → Option String
or_text a b = if truthy a then a else b

abbrev pub has_notification_id : Uuid → Notification → Bool
has_notification_id id n = n.id == id

-- `where: { tenantId, key, isActive: true }`
abbrev pub active_template : Uuid → String → NotificationTemplate → Bool
active_template tenant_id key t = t.tenant_id == tenant_id && (str_eq t.key key && t.is_active)

unfoldable pub pending_notification :
    SendNotificationPayload → String → String → Uuid → Instant → Notification
pending_notification payload title body new_id now = record {
  id = new_id;
  created_at = now;
  deleted_at = none;
  tenant_id = payload.tenant_id;
  user_id = payload.user_id;
  title = title;
  body = body;
  channel = payload.channel;
  status = NotificationStatus.pending;
  event_type = payload.event;
  is_read = false;
  read_at = none;
  sent_at = none;
  scheduled_at = none;
  error_message = none;
  data_text = payload.data_text;
  action_url = none;
  image_url = none;
}

abbrev pub set_sent : Instant → Notification → Notification
set_sent now n = record n { status = NotificationStatus.sent; sent_at = some now }

-- `err.message`
abbrev pub message_of : Error → String
message_of (internal m) = m
message_of (not_found m) = m
message_of (bad_request m) = m
message_of (conflict m) = m
message_of (unauthorized m) = m
message_of (forbidden m) = m

abbrev pub set_failed : Error → Notification → Notification
set_failed e n = record n {
  status = NotificationStatus.failed;
  error_message = some (message_of e);
}

-- `user?.email` and `user?.phone`
abbrev pub email_of : Option User → Option String
email_of none = none
email_of (some u) = some u.email

abbrev pub phone_of : Option User → Option String
phone_of none = none
phone_of (some u) = u.phone

module _ (lib : NotificationLibraries) where
  pub get_template : Uuid → String → NotificationStore → Option NotificationTemplate
  get_template tenant_id key s = lib.templates.find_one (active_template tenant_id key) s.templates

  -- `if (template.inAppTitle) title = Handlebars.compile(…)(data)`
  unfoldable pub compiled : Option String → String → String → Action NotificationStore String
  compiled none data_text text = pure text
  compiled (some t) data_text text =
      if truthy (some t) then of_result (lib.compile t data_text) else pure text

  unfoldable pub from_template :
      Option NotificationTemplate
      → String
      → String
      → String
      → Action NotificationStore (String × String)
  unfolding compiled
  from_template none data_text title body = pure (title, body)
  from_template (some t) data_text title body = do
    title' ← compiled t.in_app_title data_text title
    body' ← compiled t.in_app_body data_text body
    pure (title', body')

  -- The template of the event, where the payload has an event and a tenant.
  unfoldable pub template_for :
      SendNotificationPayload → NotificationStore → Option NotificationTemplate
  unfolding get_template
  template_for payload s = elim payload.event [
    | none ↦ none
    | some key ↦ elim payload.tenant_id [
      | none ↦ none
      | some t ↦ if truthy (some key) then get_template t key s else none
    ]
  ]

  -- The title and the body.
  unfoldable pub compose : SendNotificationPayload → Action NotificationStore (String × String)
  unfolding template_for from_template
  compose payload = do
    template ← gets (template_for payload)
    from_template template payload.data_text
        (if truthy payload.title then or_else payload.title "" else "Notification")
        (or_else payload.body "")

  unfoldable pub create_notification : Notification → Action NotificationStore Notification
  create_notification n = do
    modify (λ s. record s { notifications = lib.notifications.insert n s.notifications })
    emit (notification_created n.user_id n)
    pure n

  unfoldable pub update_notification :
      Uuid → (Notification → Notification) → Action NotificationStore (Unit {0})
  update_notification id f = modify (λ s. record s {
    notifications = lib.notifications.update (has_notification_id id) f s.notifications;
  })

  -- `if (email) { … }`
  unfoldable pub deliver_email :
      Option String → String → String → Uuid → Instant → Action NotificationStore (Unit {0})
  unfolding send_plain_email update_notification
  deliver_email none title body id now = pure tt
  deliver_email (some email) title body id now =
      if truthy (some email)
      then (do send_plain_email lib email title body; update_notification id (set_sent now))
      else pure tt

  unfoldable pub deliver_sms :
      Option String → String → Uuid → Instant → Action NotificationStore (Unit {0})
  unfolding send_sms update_notification
  deliver_sms none body id now = pure tt
  deliver_sms (some phone) body id now =
      if truthy (some phone)
      then (do send_sms lib phone body; update_notification id (set_sent now))
      else pure tt

  unfoldable pub recipient : SendNotificationPayload → NotificationStore → Option User
  recipient payload s = lib.users.find_one (has_user_id payload.user_id) s.users

  -- The body of the `try`.
  unfoldable pub deliver :
      NotificationChannel
      → SendNotificationPayload
      → String
      → String
      → Uuid
      → Instant
      → Action NotificationStore (Unit {0})
  unfolding recipient update_notification deliver_email deliver_sms
  deliver NotificationChannel.in_app payload title body id now =
      update_notification id (set_sent now)
  deliver NotificationChannel.email payload title body id now = do
    user ← gets (recipient payload)
    deliver_email (or_text payload.email (email_of user)) title body id now
  deliver NotificationChannel.sms payload title body id now = do
    user ← gets (recipient payload)
    deliver_sms (or_text payload.phone (phone_of user)) body id now
  deliver NotificationChannel.push payload title body id now = pure tt

  unfoldable pub send :
      SendNotificationPayload → Uuid → Instant → Action NotificationStore Notification
  unfolding compose create_notification deliver update_notification pending_notification
  send payload new_id now = do
    text ← compose payload
    notif ← create_notification (pending_notification payload text.0 text.1 new_id now)
    recover (deliver payload.channel payload text.0 text.1 notif.id now)
        (λ e. update_notification notif.id (set_failed e))
    pure notif

  -- `notifRepo.save` of several new rows
  pub create_bulk : List Notification → Action NotificationStore (List Notification)
  create_bulk [] = pure []
  create_bulk (n ∷ ns) = do
    modify (λ s. record s { notifications = lib.notifications.insert n s.notifications })
    rest ← create_bulk ns
    pure (n ∷ rest)

  pub handle_notification_event :
      SendNotificationPayload → Uuid → Instant → Action NotificationStore (Unit {0})
  unfolding send
  handle_notification_event payload new_id now = do send payload new_id now; pure tt

  -- `Promise.allSettled`, one payload after the other; each comes with the id of its row.
  pub handle_bulk_notification_event :
      List (SendNotificationPayload × Uuid) → Instant → Action NotificationStore (Unit {0})
  unfolding send
  handle_bulk_notification_event [] now = pure tt
  handle_bulk_notification_event ((payload, new_id) ∷ rest) now = do
    recover (do send payload new_id now; pure tt) (λ e. pure tt)
    handle_bulk_notification_event rest now
