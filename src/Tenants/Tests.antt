-- ===== src/Tenants/Tests.antt =====
-- Runs of the tenants module: one school.
use edu_crm_backend.Tenants.Service.{
  to_public_config_dto, same_flag, get_public_config_by_tenant_id, has_tenant_id,
  update_feature_flag, tenant_live, Tenant, Flag, SubscriptionPlan, SubscriptionStatus, TenantStore,
  TenantDb, TenantPublicConfigDto,
}
use edu_crm_backend.Database.InMemory.{in_memory}
use edu_crm_backend.Database.Lookup.{OnlyMatch}
use edu_crm_backend.Base.{if◌then◌else◌, refl, true, Memᴰ, false, [], str_eq, ◌≡◌, none, ◌∷◌}
use edu_crm_backend.Base.Action.{ok}
use edu_crm_backend.Tenants.Flags.{get_public_config-update_feature_flag}

-- A column that keeps its texts; only the text "," counts as one with a comma.
abbrev memory : TenantDb
memory = record {
  tenants = in_memory tenant_live;
  has_comma = λ t. str_eq t ",";
  stored = λ ts. ts;
  stored_lem = λ ts h. refl;
}

abbrev lyceum : Tenant
lyceum = record {
  id = 1;
  created_at = 1;
  deleted_at = none;
  name = "Lyceum";
  slug = "lyceum";
  domain = none;
  logo_url = none;
  favicon_url = none;
  theme = [];
  primary_color = none;
  secondary_color = none;
  contact_email = none;
  contact_phone = none;
  address = none;
  country = none;
  timezone = none;
  default_language = none;
  is_active = true;
  subscription_plan = SubscriptionPlan.free;
  subscription_status = SubscriptionStatus.trial;
  subscription_expires_at = none;
  max_students = 100;
  max_teachers = 10;
  max_storage_gb = 5;
  feature_flags = λ f. none;
  settings = [];
  branches = "North" ∷ [];
  currency = "UZS";
}

abbrev schools : TenantStore
schools = record { tenants = lyceum ∷ [] }

only_lyceum : OnlyMatch (has_tenant_id 1) schools.tenants lyceum
only_lyceum r (Memᴰ.head e) h = e
only_lyceum r (Memᴰ.tail m) h = elim m [ ]

get_public_config-update_feature_flag_example :
    let s' = (update_feature_flag memory 1 Flag.chat false schools).1 in
    (c : TenantPublicConfigDto) × ((get_public_config_by_tenant_id memory 1 s').0 ≡ ok c)
    × ((f : Flag)
        → c.feature_flags f ≡ (
            if same_flag f Flag.chat then false else (to_public_config_dto lyceum).feature_flags f))
get_public_config-update_feature_flag_example =
    get_public_config-update_feature_flag memory 1 Flag.chat false schools lyceum refl only_lyceum
