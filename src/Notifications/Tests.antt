-- ===== src/Notifications/Tests.antt =====
-- Runs of the notifications module: an address that the mailer refuses, and one stored notification.
use edu_crm_backend.Notifications.Entities.{
  Notification, NotificationStore, NotificationLibraries, notification_live, template_live,
}
use edu_crm_backend.Shared.Enums.{NotificationStatus, NotificationChannel}
use edu_crm_backend.Database.InMemory.{in_memory}
use edu_crm_backend.Notifications.Inbox.{delete_by_id}
use edu_crm_backend.Users.Entity.{user_live}
use edu_crm_backend.Notifications.Send.{
  set_sent, create_notification, template_for, from_template, compose, pending_notification, send,
  SendNotificationPayload,
}
use edu_crm_backend.Base.{refl, true, false, ◌≡◌, none, some, ◌==◌, [], ◌∷◌}
use edu_crm_backend.Base.Action.{not_found, forbidden, internal, err, ok}
use edu_crm_backend.Notifications.Reading.{delete_by_id_owner}
use edu_crm_backend.Notifications.Settled.{send-settled}

-- The mailer refuses every message, and text messages go to the console.
abbrev down : NotificationLibraries
down = record {
  notifications = in_memory notification_live;
  templates = in_memory template_live;
  users = in_memory user_live;
  compile = λ t data_text. ok t;
  send_mail = λ to subject html. err (internal "Connection refused");
  twilio = λ to body. ok tt;
  sms_provider = "console";
  has_twilio_credentials = false;
}

abbrev reminder : SendNotificationPayload
reminder = record {
  user_id = 3;
  tenant_id = some 1;
  channel = NotificationChannel.email;
  event = none;
  title = some "Payment";
  body = some "Your payment is due.";
  email = some "dana@school.example";
  phone = none;
  data_text = "{}";
}

abbrev stored : Notification
unfolding pending_notification
stored = pending_notification reminder "Payment" "Your payment is due." 70 100

abbrev empty : NotificationStore
empty = record { notifications = []; templates = []; users = []; events = []; log = [] }

abbrev filled : NotificationStore
filled = record empty { notifications = stored ∷ [] }

send-settled_example :
    ((send down reminder 70 100 empty).1.notifications ≡ set_sent 100 stored ∷ [])
    × (stored.status ≡ NotificationStatus.pending)
unfolding send compose from_template template_for create_notification pending_notification
send-settled_example = send-settled down reminder 70 100 empty stored tt refl

delete_by_id_owner_example :
    ((stored.user_id == 3) ≡ false
      → delete_by_id down 70 3 1 200 filled
        ≡ (err (forbidden "You cannot delete another user's notification"), filled))
    × ((stored.user_id == 3) ≡ true
        → let s' = (delete_by_id down 70 3 1 200 filled).1 in
          ((delete_by_id down 70 3 1 200 filled).0 ≡ ok tt)
          × (delete_by_id down 70 3 1 300 s' ≡ (err (not_found "Notification not found"), s')))
unfolding pending_notification
delete_by_id_owner_example = delete_by_id_owner down 70 3 1 200 300 filled stored refl
