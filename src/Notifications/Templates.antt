-- ===== src/Notifications/Templates.antt =====
-- The templates of modules/notifications/notifications.service.ts.
use edu_crm_backend.Notifications.Entities.{
  NotificationTemplate, NotificationStore, NotificationLibraries,
}
use edu_crm_backend.Base.{◌&&◌, ◌==◌, none, Bool, List, some, Option, or_else, String}
use edu_crm_backend.Database.{Instant, Uuid}
use edu_crm_backend.Base.Action.{not_found, pure, or_throw, gets, modify, ◌>>=◌, ◌>>◌, Action}

pub record UpdateNotificationTemplateDto : Type 0 where
  pub name : Option String
  pub email_subject : Option String
  pub email_body : Option String
  pub sms_body : Option String
  pub in_app_title : Option String
  pub in_app_body : Option String
  pub is_active : Option Bool

abbrev pub template_in_tenant : Uuid → Uuid → NotificationTemplate → Bool
template_in_tenant id tenant_id t = t.id == id && t.tenant_id == tenant_id

abbrev pub has_template_id : Uuid → NotificationTemplate → Bool
has_template_id id t = t.id == id

-- A key that the request gives, or what is stored.
abbrev pub given : {A : Type 0} → Option A → Option A → Option A
given none old = old
given (some a) old = some a

-- `Object.assign(tpl, dto)`
pub assign_template : UpdateNotificationTemplateDto → NotificationTemplate → NotificationTemplate
assign_template dto t = record t {
  name = or_else dto.name t.name;
  email_subject = given dto.email_subject t.email_subject;
  email_body = given dto.email_body t.email_body;
  sms_body = given dto.sms_body t.sms_body;
  in_app_title = given dto.in_app_title t.in_app_title;
  in_app_body = given dto.in_app_body t.in_app_body;
  is_active = or_else dto.is_active t.is_active;
}

module _ (lib : NotificationLibraries) where
  -- In the order of the database, by key.
  pub list_templates : Uuid → NotificationStore → List NotificationTemplate
  list_templates tenant_id s = lib.templates.find (λ t. t.tenant_id == tenant_id) s.templates

  -- The template comes with its id and its columns; the tenant is put in.
  pub create_template : Uuid → NotificationTemplate → Action NotificationStore NotificationTemplate
  create_template tenant_id dto = do
    let tpl : NotificationTemplate = record dto { tenant_id = tenant_id }
    modify (λ s. record s { templates = lib.templates.insert tpl s.templates })
    pure tpl

  find_template : Uuid → Uuid → Action NotificationStore NotificationTemplate
  find_template id tenant_id = do
    found ← gets (λ s. lib.templates.find_one (template_in_tenant id tenant_id) s.templates)
    or_throw found (not_found "Notification template not found")

  pub update_template :
      Uuid → Uuid → UpdateNotificationTemplateDto → Action NotificationStore NotificationTemplate
  unfolding find_template assign_template
  update_template id tenant_id dto = do
    tpl ← find_template id tenant_id
    modify (λ s. record s {
      templates = lib.templates.update (has_template_id tpl.id) (assign_template dto) s.templates;
    })
    pure (assign_template dto tpl)

  -- `softDelete(id)`
  pub remove_template : Uuid → Uuid → Instant → Action NotificationStore (Unit {0})
  unfolding find_template
  remove_template id tenant_id now = do
    find_template id tenant_id
    modify (λ s. record s {
      templates =
          lib.templates.update (has_template_id id) (λ t. record t { deleted_at = some now })
            s.templates;
    })
