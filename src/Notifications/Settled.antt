-- ===== src/Notifications/Settled.antt =====
-- What becomes of a notification that `send` creates.
use edu_crm_backend.Notifications.Entities.{
  sms_console, sms_failed, NotificationTemplate, mail_sent, mail_failed, LogLine, Notification,
  NotificationStore, NotificationLibraries,
}
use edu_crm_backend.Shared.Enums.{NotificationStatus, NotificationChannel}
use edu_crm_backend.Notifications.Send.{
  pending_notification, create_notification, send, recipient, phone_of, has_notification_id,
  email_of, or_text, deliver_sms, template_for, compiled, deliver_email, set_sent,
  update_notification, from_template, deliver, SendNotificationPayload, compose,
}
use edu_crm_backend.Notifications.Transport.{send_via_twilio, send_plain_email, send_sms}
use edu_crm_backend.Base.{
  ==_refl, ap, ◌∙◌, refl, ◌==◌, All, str_eq, none, or_else, some, Bool-cases, if◌then◌else◌, sym,
  inr, arith, ◌∷◌, inl, false, ◌≡◌, true, List, String, Option, Bool,
}
use edu_crm_backend.Database.{Uuid, Instant}
use edu_crm_backend.Users.Entity.{truthy, User}
use edu_crm_backend.Base.Action.{ok_injective, ◌>>◌, Action, Result-cases, ok}
use edu_crm_backend.Database.Rows.{update_rows_none, update_rows_id, update_rows}

-- Whether there is an address for the channel: in the application always, by mail and by text
-- message where the payload or else the user has one, by push never.
abbrev pub has_address : NotificationChannel → SendNotificationPayload → Option User → Bool
has_address NotificationChannel.in_app payload user = true
has_address NotificationChannel.email payload user = truthy (or_text payload.email (email_of user))
has_address NotificationChannel.sms payload user = truthy (or_text payload.phone (phone_of user))
has_address NotificationChannel.push payload user = false

-- Sent where there is an address, and as it was created where there is none.
abbrev pub settled : Bool → Instant → Notification → Notification
settled true now n = set_sent now n
settled false now n = n

module _ (lib : NotificationLibraries) where
  -- The transports write to the log only, and never throw.
  email_quiet :
      (to subject html : String) (s : NotificationStore)
      → (b : Bool) × (l : List LogLine) × (send_plain_email lib to subject html s
          ≡ (ok b, record s { log = l }))
  unfolding send_plain_email
  email_quiet to subject html s = elim (Result-cases (lib.send_mail to subject html)) [
    | inl (e, failed) ↦ (false, mail_failed to e ∷ s.log, ground arith)
    | inr (a, fine) ↦ (true, mail_sent to subject ∷ s.log, ground arith)
  ]

  sms_quiet :
      (to body : String) (s : NotificationStore)
      → (l : List LogLine) × (send_sms lib to body s ≡ (ok tt, record s { log = l }))
  unfolding send_sms send_via_twilio
  sms_quiet to body s = elim (Bool-cases (str_eq lib.sms_provider "twilio")) [
    | inl twilio ↦ elim (Bool-cases lib.has_twilio_credentials) [
      | inl known ↦ elim (Result-cases (lib.twilio to body)) [
        | inl (e, failed) ↦ (sms_failed to e ∷ s.log, ground arith)
        | inr (a, fine) ↦ (s.log, ground arith)
      ]
      | inr unknown ↦ (sms_console to body ∷ s.log, ground arith)
    ]
    | inr other ↦ (sms_console to body ∷ s.log, ground arith)
  ]

  compiled_same :
      (o : Option String) (data_text text : String) (s : NotificationStore)
      → (compiled lib o data_text text s).1 ≡ s
  unfolding compiled
  compiled_same none data_text text s = refl
  compiled_same (some t) data_text text s = elim (Bool-cases (str_eq t "")) [
    | inl empty ↦ ground arith
    | inr full ↦ ground arith
  ]

  template_same :
      (o : Option NotificationTemplate) (data_text title body : String) (s : NotificationStore)
      → (from_template lib o data_text title body s).1 ≡ s
  unfolding from_template
  template_same none data_text title body s = refl
  template_same (some t) data_text title body s =
      let one = compiled_same t.in_app_title data_text title s in
      let two = compiled_same t.in_app_body data_text body s in
      elim (Result-cases (compiled lib t.in_app_title data_text title s).0) [
        | inl (e, failed) ↦ ground arith
        | inr (title', fine) ↦ elim (Result-cases (compiled lib t.in_app_body data_text body s).0) [
          | inl (e, failed) ↦ ground arith
          | inr (body', good) ↦ ground arith
        ]
      ]

  compose_same :
      (payload : SendNotificationPayload) (s : NotificationStore) → (compose lib payload s).1 ≡ s
  unfolding compose
  compose_same payload s =
      template_same (template_for lib payload s) payload.data_text
        (if truthy payload.title then or_else payload.title "" else "Notification")
        (or_else payload.body "") s

  updated :
      (id : Uuid) (now : Instant) (l : List LogLine) (s : NotificationStore)
      → (update_notification lib id (set_sent now) (record s { log = l })).1.notifications
        ≡ update_rows (has_notification_id id) (set_sent now) s.notifications
  unfolding update_notification
  updated id now l s = lib.notifications.update_lem _ _ _

  after_log :
      {A : Type 0} (m : Action NotificationStore A) (a : A) (id : Uuid) (now : Instant)
      (s : NotificationStore) (l : List LogLine)
      → m s ≡ (ok a, record s { log = l })
      → ((m >> update_notification lib id (set_sent now)) s).0 ≡ ok tt
        × (((m >> update_notification lib id (set_sent now)) s).1.notifications
            ≡ update_rows (has_notification_id id) (set_sent now) s.notifications)
  unfolding update_notification
  after_log m a id now s l quiet = (
    ground arith,
    ground (
      arith,
      lib.notifications.update_lem (has_notification_id id) (set_sent now) s.notifications,
    ),
  )

  email_done :
      (o : Option String) (title body : String) (id : Uuid) (now : Instant) (s : NotificationStore)
      → ((deliver_email lib o title body id now s).0 ≡ ok tt)
        × ((deliver_email lib o title body id now s).1.notifications
            ≡ update_rows (has_notification_id id) (settled (truthy o) now) s.notifications)
  unfolding deliver_email update_notification
  email_done none title body id now s = (refl, sym (update_rows_id _ s.notifications))
  email_done (some to) title body id now s = elim (Bool-cases (str_eq to "")) [
    | inl empty ↦ (ground arith, rw empty (sym (update_rows_id _ s.notifications)))
    | inr full ↦
        let (b, l, quiet) = email_quiet to title body s in
        rw full (after_log (send_plain_email lib to title body) b id now s l quiet)
  ]

  sms_done :
      (o : Option String) (body : String) (id : Uuid) (now : Instant) (s : NotificationStore)
      → ((deliver_sms lib o body id now s).0 ≡ ok tt)
        × ((deliver_sms lib o body id now s).1.notifications
            ≡ update_rows (has_notification_id id) (settled (truthy o) now) s.notifications)
  unfolding deliver_sms update_notification
  sms_done none body id now s = (refl, sym (update_rows_id _ s.notifications))
  sms_done (some to) body id now s = elim (Bool-cases (str_eq to "")) [
    | inl empty ↦ (ground arith, rw empty (sym (update_rows_id _ s.notifications)))
    | inr full ↦
        let (l, quiet) = sms_quiet to body s in
        rw full (after_log (send_sms lib to body) tt id now s l quiet)
  ]

  delivered :
      (channel : NotificationChannel) (payload : SendNotificationPayload) (title body : String)
      (id : Uuid) (now : Instant) (s : NotificationStore)
      → ((deliver lib channel payload title body id now s).0 ≡ ok tt)
        × ((deliver lib channel payload title body id now s).1.notifications
            ≡ update_rows
                (has_notification_id id)
                (settled (has_address channel payload (recipient lib payload s)) now)
                s.notifications)
  unfolding deliver update_notification
  delivered NotificationChannel.in_app payload title body id now s =
      (refl, lib.notifications.update_lem _ _ _)
  delivered NotificationChannel.email payload title body id now s =
      email_done (or_text payload.email (email_of (recipient lib payload s))) title body id now s
  delivered NotificationChannel.sms payload title body id now s =
      sms_done (or_text payload.phone (phone_of (recipient lib payload s))) body id now s
  delivered NotificationChannel.push payload title body id now s =
      (refl, sym (update_rows_id _ s.notifications))

  composed :
      (payload : SendNotificationPayload) (new_id : Uuid) (now : Instant) (s : NotificationStore)
      (n : Notification)
      → (send lib payload new_id now s).0 ≡ ok n
      → (text : String × String) × (compose lib payload s ≡ (ok text, s))
  unfolding send
  composed payload new_id now s n h =
      let same = compose_same payload s in
      elim (Result-cases (compose lib payload s).0) [
        | inl (e, failed) ↦ absurd (ground arith)
        | inr (text, fine) ↦ (text, ground arith)
      ]

  created :
      (payload : SendNotificationPayload) (new_id : Uuid) (now : Instant) (s : NotificationStore)
      (text : String × String)
      → compose lib payload s ≡ (ok text, s)
      → let n = pending_notification payload text.0 text.1 new_id now in
        let s' = (create_notification lib n s).1 in
        ((send lib payload new_id now s).0 ≡ ok n)
        × ((send lib payload new_id now s).1.notifications
            ≡ update_rows
                (has_notification_id new_id)
                (settled (has_address payload.channel payload (recipient lib payload s')) now)
                s'.notifications)
  unfolding send create_notification pending_notification
  created payload new_id now s text fine =
      let n = pending_notification payload text.0 text.1 new_id now in
      let s' = (create_notification lib n s).1 in
      let (done, rows) = delivered payload.channel payload text.0 text.1 new_id now s' in
      (ground arith, ground arith)

  new_row :
      (payload : SendNotificationPayload) (title body : String) (new_id : Uuid) (now : Instant)
      (b : Bool) (s : NotificationStore)
      → All (λ r. (r.id == new_id) ≡ false) s.notifications
      → let n = pending_notification payload title body new_id now in
        update_rows
          (has_notification_id new_id)
          (settled b now)
          (create_notification lib n s).1.notifications
        ≡ settled b now n ∷ s.notifications
  unfolding create_notification pending_notification
  new_row payload title body new_id now b s fresh =
      let n = pending_notification payload title body new_id now in
      rw (lib.notifications.insert_lem n s.notifications, ==_refl new_id)
        (ap (λ l. settled b now n ∷ l)
          (update_rows_none (has_notification_id new_id) (settled b now) s.notifications fresh))

  -- A notification that `send` creates with a new id ends up as the newest row, sent if there is an
  -- address for its channel and otherwise pending for good, and no other row changes. The transports
  -- may fail or not: the row is never marked as failed. What `send` returns is pending in any case.
  pub send-settled :
      (payload : SendNotificationPayload) (new_id : Uuid) (now : Instant) (s : NotificationStore)
      (n : Notification)
      → All (λ r. (r.id == new_id) ≡ false) s.notifications
      → (send lib payload new_id now s).0 ≡ ok n
      → ((send lib payload new_id now s).1.notifications
          ≡ settled (has_address payload.channel payload (recipient lib payload s)) now n
            ∷ s.notifications)
        × (n.status ≡ NotificationStatus.pending)
  unfolding pending_notification recipient create_notification
  send-settled payload new_id now s n fresh h =
      let (text, fine) = composed payload new_id now s n h in
      let (done, rows) = created payload new_id now s text fine in
      let b = has_address payload.channel payload (recipient lib payload s) in
      let same : pending_notification payload text.0 text.1 new_id now ≡ n =
        ok_injective _ _ (sym done ∙ h) in
      (
        rows
            ∙ new_row payload text.0 text.1 new_id now b s fresh
            ∙ ap (λ r. settled b now r ∷ s.notifications) same,
        ap (λ r. r.status) (sym same),
      )
