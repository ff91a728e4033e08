-- ===== src/Tenants/Flags.antt =====
-- What a changed feature flag shows in the public configuration.
use edu_crm_backend.Tenants.Service.{
  same_flag, tenant_live, set_flag, has_tenant_id, save_tenant, update_feature_flag,
  to_public_config_dto, find_tenant, get_public_config_by_tenant_id, Tenant, Flag, TenantStore,
  TenantDb, TenantPublicConfigDto,
}
use edu_crm_backend.Base.{
  Option-cases, inr, refl, inl, ==_refl, Bool-cases, ◌∙◌, ◌==◌, ap, if◌then◌else◌, arith, some,
  Bool, ◌≡◌,
}
use edu_crm_backend.Database.{Uuid}
use edu_crm_backend.Base.Action.{ok}
use edu_crm_backend.Database.Lookup.{find_one-update_only, OnlyMatch}

module _ (db : TenantDb) where
  -- What a save with a change that keeps the id leaves for the next read.
  pub saved_tenant :
      (id : Uuid) (f : Tenant → Tenant) (s : TenantStore) (u : Tenant)
      → db.tenants.find_one (has_tenant_id id) s.tenants ≡ some u
      → OnlyMatch (has_tenant_id id) s.tenants u
      → ((t : Tenant) → (f t).id ≡ t.id)
      → ((t : Tenant) → tenant_live (f t) ≡ tenant_live t)
      → (find_tenant db id (save_tenant db u.id f s).1).0 ≡ ok (f u)
  unfolding find_tenant save_tenant
  saved_tenant id f s u found only ids lives =
      let again =
        find_one-update_only db.tenants (has_tenant_id id) (has_tenant_id u.id) f s.tenants u found
          only (λ r. ap (λ i. i == id) (ids r)) lives (==_refl u.id) in
      let rows = db.tenants.update_lem (has_tenant_id u.id) f s.tenants in
      ground (arith, rows, again)

  pub find_tenant_state : (id : Uuid) (s : TenantStore) → (find_tenant db id s).1 ≡ s
  unfolding find_tenant
  find_tenant_state id s = elim (Option-cases (db.tenants.find_one (has_tenant_id id) s.tenants)) [
    | inl missed ↦ ground arith
    | inr (x, found) ↦ ground arith
  ]

  flag_set :
      (id : Uuid) (flag : Flag) (value : Bool) (s : TenantStore) (u : Tenant)
      → db.tenants.find_one (has_tenant_id id) s.tenants ≡ some u
      → update_feature_flag db id flag value s
        ≡ find_tenant db id (save_tenant db u.id (set_flag flag value) s).1
  unfolding update_feature_flag find_tenant save_tenant
  flag_set id flag value s u found = ground arith

  config_of :
      (id : Uuid) (s : TenantStore) (t : Tenant)
      → (find_tenant db id s).0 ≡ ok t
      → (get_public_config_by_tenant_id db id s).0 ≡ ok (to_public_config_dto t)
  unfolding get_public_config_by_tenant_id
  config_of id s t h = ground arith

  -- After a feature flag of a tenant is set, the public configuration of the tenant shows it with
  -- the value it was set to and every other flag as before; the tenant is the only row with its id.
  pub get_public_config-update_feature_flag :
      (id : Uuid) (flag : Flag) (value : Bool) (s : TenantStore) (u : Tenant)
      → db.tenants.find_one (has_tenant_id id) s.tenants ≡ some u
      → OnlyMatch (has_tenant_id id) s.tenants u
      → let s' = (update_feature_flag db id flag value s).1 in
        (c : TenantPublicConfigDto) × ((get_public_config_by_tenant_id db id s').0 ≡ ok c)
        × ((f : Flag)
            → c.feature_flags f
              ≡ (if same_flag f flag then value else (to_public_config_dto u).feature_flags f))
  unfolding to_public_config_dto
  get_public_config-update_feature_flag id flag value s u found only =
      let set = saved_tenant id (set_flag flag value) s u found only (λ t. refl) (λ t. refl) in
      let state : (update_feature_flag db id flag value s).1
          ≡ (save_tenant db u.id (set_flag flag value) s).1 =
        ap (λ p. p.1) (flag_set id flag value s u found) ∙ find_tenant_state id _ in
      (
        to_public_config_dto (set_flag flag value u),
        rw state (config_of id _ _ set),
        λ f. elim (Bool-cases (same_flag f flag)) [
          | inl same ↦ rw same refl
          | inr other ↦ rw other refl
        ],
      )
