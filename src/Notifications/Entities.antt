-- ===== src/Notifications/Entities.antt =====
-- modules/notifications/entities: notifications and their templates. `data` is kept as a text. The
-- tenant of a notification is none where the service stores the empty text.
use edu_crm_backend.Base.{◌∷◌, Option, List, Bool, String}
use edu_crm_backend.Database.{Instant, is_live, Repository, Uuid}
use edu_crm_backend.Base.Action.{Result, modify, Error, Action}
use edu_crm_backend.Users.Entity.{user_live, User}
use edu_crm_backend.Shared.Enums.{NotificationStatus, NotificationChannel}

pub record Notification : Type 0 where
  pub id : Uuid
  pub created_at : Instant
  pub deleted_at : Option Instant
  pub tenant_id : Option Uuid
  pub user_id : Uuid
  pub title : String
  pub body : String
  pub channel : NotificationChannel
  pub status : NotificationStatus
  pub event_type : Option String
  pub is_read : Bool
  pub read_at : Option Instant
  pub sent_at : Option Instant
  pub scheduled_at : Option Instant
  pub error_message : Option String
  pub data_text : String
  pub action_url : Option String
  pub image_url : Option String

pub record NotificationTemplate : Type 0 where
  pub id : Uuid
  pub deleted_at : Option Instant
  pub tenant_id : Uuid
  pub key : String
  pub name : String
  pub email_subject : Option String
  pub email_body : Option String
  pub sms_body : Option String
  pub in_app_title : Option String
  pub in_app_body : Option String
  pub is_active : Bool

abbrev pub notification_live : Notification → Bool
notification_live n = is_live n.deleted_at

abbrev pub template_live : NotificationTemplate → Bool
template_live t = is_live t.deleted_at

pub data NotificationEvent : Type 0 where
  notification_created : Uuid → Notification → NotificationEvent
  marked_read : Uuid → Uuid → NotificationEvent
  all_marked_read : Uuid → NotificationEvent

-- What the transports write to the log.
pub data LogLine : Type 0 where
  sms_console : String → String → LogLine
  sms_failed : String → Error → LogLine
  mail_sent : String → String → LogLine
  mail_failed : String → Error → LogLine

pub record NotificationStore : Type 0 where
  pub notifications : List Notification
  pub templates : List NotificationTemplate
  pub users : List User
  pub events : List NotificationEvent
  pub log : List LogLine

-- The tables; `Handlebars.compile(t)(data)`; the mailer, which gets the recipient, the subject and
-- the content of the layout; a request to Twilio; and the configuration of the SMS provider.
pub record NotificationLibraries : Type 0 where
  pub notifications : Repository notification_live
  pub templates : Repository template_live
  pub users : Repository user_live
  pub compile : String → String → Result String
  pub send_mail : String → String → String → Result (Unit {0})
  pub twilio : String → String → Result (Unit {0})
  pub sms_provider : String
  pub has_twilio_credentials : Bool

abbrev pub emit : NotificationEvent → Action NotificationStore (Unit {0})
emit e = modify (λ s. record s { events = e ∷ s.events })

abbrev pub write_log : LogLine → Action NotificationStore (Unit {0})
write_log l = modify (λ s. record s { log = l ∷ s.log })
