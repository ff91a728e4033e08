-- ===== src/Notifications/Transport.antt =====
-- `send` of modules/notifications/sms.service.ts and `sendPlainEmail` of mail/mail.service.ts. Both
-- catch what the transport throws.
use edu_crm_backend.Notifications.Entities.{
  mail_failed, sms_failed, sms_console, mail_sent, NotificationStore, NotificationLibraries,
  write_log,
}
use edu_crm_backend.Base.{false, true, str_eq, if◌then◌else◌, Bool, String}
use edu_crm_backend.Base.Action.{pure, ◌>>◌, of_result, recover, Action}

module _ (lib : NotificationLibraries) where
  unfoldable pub send_via_twilio : String → String → Action NotificationStore (Unit {0})
  send_via_twilio to body =
      if lib.has_twilio_credentials
      then of_result (lib.twilio to body)
      else write_log (sms_console to body)

  unfoldable pub send_sms : String → String → Action NotificationStore (Unit {0})
  unfolding send_via_twilio
  send_sms to body =
      recover
        (if str_eq lib.sms_provider "twilio"
          then send_via_twilio to body
          else write_log (sms_console to body))
        (λ e. write_log (sms_failed to e))

  unfoldable pub send_plain_email : String → String → String → Action NotificationStore Bool
  send_plain_email to subject html =
      recover
        (do of_result (lib.send_mail to subject html); write_log (mail_sent to subject); pure true)
        (λ e. do write_log (mail_failed to e); pure false)
