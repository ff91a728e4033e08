-- ===== src/Tenants/Service.antt =====
-- modules/tenants/tenants.service.ts over the entity `Tenant`. `settings` and `theme` are lists of
-- keys with JSON texts, of which the first entry for a key counts.
use edu_crm_backend.Base.{
  [], some, ◌≡◌, ℕ, ◌∷◌, str_eq, any, ◌==◌, if◌then◌else◌, false, true, ◌++◌, none, All, or_else,
  Option, List, Bool, String,
}
use edu_crm_backend.Base.Action.{not_found, or_throw, gets, ◌>>◌, pure, ◌>>=◌, modify, Action}
use edu_crm_backend.Database.{Instant, is_live, Repository, Uuid}

pub data SubscriptionPlan : Type 0 where
  free basic professional enterprise : SubscriptionPlan

pub data SubscriptionStatus : Type 0 where
  active inactive trial expired cancelled : SubscriptionStatus

-- The keys of `TenantFeatureFlags`.
pub data Flag : Type 0 where
  payments chat certificates exam_engine analytics multi_currency : Flag

-- The stored object: a key can be missing.
abbrev pub Flags : Type 0
Flags = Flag → Option Bool

pub record Tenant : Type 0 where
  pub id : Uuid
  pub created_at : Instant
  pub deleted_at : Option Instant
  pub name : String
  pub slug : String
  pub domain : Option String
  pub logo_url : Option String
  pub favicon_url : Option String
  pub theme : List (String × String)
  pub primary_color : Option String
  pub secondary_color : Option String
  pub contact_email : Option String
  pub contact_phone : Option String
  pub address : Option String
  pub country : Option String
  pub timezone : Option String
  pub default_language : Option String
  pub is_active : Bool
  pub subscription_plan : SubscriptionPlan
  pub subscription_status : SubscriptionStatus
  pub subscription_expires_at : Option Instant
  pub max_students : ℕ
  pub max_teachers : ℕ
  pub max_storage_gb : ℕ
  pub feature_flags : Flags
  pub settings : List (String × String)
  pub branches : List String
  pub currency : String

abbrev pub tenant_live : Tenant → Bool
tenant_live t = is_live t.deleted_at

pub record TenantStore : Type 0 where
  pub tenants : List Tenant

-- The table, and what a `simple-array` column gives back of the texts that were stored: the same
-- texts, unless one has a comma.
pub record TenantDb : Type 0 where
  pub tenants : Repository tenant_live
  pub has_comma : String → Bool
  pub stored : List String → List String
  pub stored_lem : (ts : List String) → All (λ t. has_comma t ≡ false) ts → stored ts ≡ ts

pub record TenantPublicConfigDto : Type 0 where
  pub tenant_id : Uuid
  pub slug : String
  pub name : String
  pub logo_url : Option String
  pub primary_color : Option String
  pub feature_flags : Flag → Bool
  pub default_locale : String
  pub timezone : String
  pub currency : String

abbrev pub has_tenant_id : Uuid → Tenant → Bool
has_tenant_id id t = t.id == id

abbrev pub same_flag : Flag → Flag → Bool
same_flag payments payments = true
same_flag chat chat = true
same_flag certificates certificates = true
same_flag exam_engine exam_engine = true
same_flag analytics analytics = true
same_flag multi_currency multi_currency = true
same_flag _ _ = false

-- `{ ...flags, [flag]: value }`
abbrev pub set_flag : Flag → Bool → Tenant → Tenant
set_flag flag value t = record t {
  feature_flags = λ f. if same_flag f flag then some value else t.feature_flags f;
}

-- `obj[key]`
abbrev pub entry : String → List (String × String) → Option String
entry key [] = none
entry key ((k, v) ∷ rest) = let found = entry key rest in if str_eq k key then some v else found

-- `{ ...old, ...settings }`
abbrev pub merge_settings : List (String × String) → Tenant → Tenant
merge_settings settings t = record t { settings = settings ++ t.settings }

abbrev pub set_branches : List String → Tenant → Tenant
set_branches branches t = record t { branches = branches }

-- `current.includes(branch)`
abbrev pub has_branch : String → List String → Bool
has_branch branch current = any (λ b. str_eq b branch) current

-- The default of a flag.
abbrev pub default_flag : Flag → Bool
default_flag multi_currency = false
default_flag _ = true

unfoldable pub to_public_config_dto : Tenant → TenantPublicConfigDto
to_public_config_dto t = record {
  tenant_id = t.id;
  slug = t.slug;
  name = t.name;
  logo_url = t.logo_url;
  primary_color = t.primary_color;
  feature_flags = λ f. or_else (t.feature_flags f) (default_flag f);
  default_locale = or_else t.default_language "uz";
  timezone = or_else t.timezone "Asia/Tashkent";
  currency = or_else (entry "currency" t.settings) "UZS";
}

module _ (db : TenantDb) where
  -- In the order of the database, the newest first.
  pub find_all_tenants : TenantStore → List Tenant
  find_all_tenants s = db.tenants.find (λ t. true) s.tenants

  unfoldable pub find_tenant : Uuid → Action TenantStore Tenant
  find_tenant id = do
    found ← gets (λ s. db.tenants.find_one (has_tenant_id id) s.tenants)
    or_throw found (not_found "Tenant not found")

  pub find_by_slug : String → TenantStore → Option Tenant
  find_by_slug slug s = db.tenants.find_one (λ t. str_eq t.slug slug) s.tenants

  pub create_tenant : Tenant → Action TenantStore Tenant
  create_tenant tenant = do
    modify (λ s. record s { tenants = db.tenants.insert tenant s.tenants })
    pure tenant

  -- `save` of a tenant that was loaded, with what was assigned to it.
  unfoldable pub save_tenant : Uuid → (Tenant → Tenant) → Action TenantStore (Unit {0})
  save_tenant id f =
      modify (λ s. record s { tenants = db.tenants.update (has_tenant_id id) f s.tenants })

  -- `assign` is the assignment of the keys of the request.
  pub update_tenant : Uuid → (Tenant → Tenant) → Action TenantStore Tenant
  unfolding find_tenant save_tenant
  update_tenant id assign = do tenant ← find_tenant id; save_tenant tenant.id assign; find_tenant id

  pub remove_tenant : Uuid → Instant → Action TenantStore (Unit {0})
  unfolding find_tenant save_tenant
  remove_tenant id now = do
    tenant ← find_tenant id
    save_tenant tenant.id (λ t. record t { deleted_at = some now })

  unfoldable pub update_feature_flag : Uuid → Flag → Bool → Action TenantStore Tenant
  unfolding find_tenant save_tenant
  update_feature_flag id flag value = do
    tenant ← find_tenant id
    save_tenant tenant.id (set_flag flag value)
    find_tenant id

  pub update_settings : Uuid → List (String × String) → Action TenantStore Tenant
  unfolding find_tenant save_tenant
  update_settings id settings = do
    tenant ← find_tenant id
    save_tenant tenant.id (merge_settings settings)
    find_tenant id

  -- `if (!current.includes(branch)) { … }`
  unfoldable pub append_branch : Bool → Tenant → String → Action TenantStore (Unit {0})
  unfolding save_tenant
  append_branch true tenant branch = pure tt
  append_branch false tenant branch =
      save_tenant tenant.id (set_branches (db.stored (tenant.branches ++ (branch ∷ []))))

  unfoldable pub add_branch : Uuid → String → Action TenantStore Tenant
  unfolding find_tenant append_branch
  add_branch id branch = do
    tenant ← find_tenant id
    append_branch (has_branch branch tenant.branches) tenant branch
    find_tenant id

  pub get_public_config : String → Action TenantStore TenantPublicConfigDto
  unfolding to_public_config_dto
  get_public_config slug = do
    found ← gets (λ s. db.tenants.find_one (λ t. str_eq t.slug slug) s.tenants)
    tenant ← or_throw found (not_found "Tenant not found")
    pure (to_public_config_dto tenant)

  unfoldable pub get_public_config_by_tenant_id : Uuid → Action TenantStore TenantPublicConfigDto
  unfolding find_tenant to_public_config_dto
  get_public_config_by_tenant_id id = do tenant ← find_tenant id; pure (to_public_config_dto tenant)
