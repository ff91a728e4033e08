-- ===== src/Roles/Tests.antt =====
-- Runs of the roles module: the owner's role of a tenant and a custom role.
use edu_crm_backend.Roles.Service.{
  is_owner_role, find_all_by_tenant, update_role, has_name, has_role_id, system_roles, role_live,
  ensure_system_roles, CustomRole, RolePatch, RoleStore, RoleDb,
}
use edu_crm_backend.Roles.Owner.{owner_role_kept, run_roles, update_role_overwrites, RoleCommand}
use edu_crm_backend.Shared.Enums.{UserRole}
use edu_crm_backend.Database.InMemory.{in_memory}
use edu_crm_backend.Base.{refl, ap, ◌≡◌, arith, false, true, some, Memᴰ, none, ◌∷◌, []}
use edu_crm_backend.Database.Lookup.{OnlyMatch}
use edu_crm_backend.Users.Entity.{user_live}
use edu_crm_backend.Database.{Uuid}
use edu_crm_backend.Base.Action.{ok}
use edu_crm_backend.Roles.Seeding.{ensure_system_roles_complete}

abbrev memory : RoleDb
memory = record { roles = in_memory role_live; users = in_memory user_live }

abbrev owner_role : CustomRole
owner_role = record {
  id = 80;
  deleted_at = none;
  tenant_id = 1;
  name = "owner";
  description = none;
  permissions = "*" ∷ [];
  is_active = true;
  is_system = true;
}

abbrev desk : CustomRole
desk = record owner_role { id = 81; name = "desk"; permissions = []; is_system = false }

abbrev tenant_roles : RoleStore
tenant_roles = record { roles = desk ∷ owner_role ∷ []; users = [] }

abbrev patch : RolePatch
patch = record {
  id = none;
  tenant_id = none;
  name = none;
  description = none;
  permissions = some [];
  is_active = none;
  is_system = none;
}

only_owner : OnlyMatch (has_role_id 80) tenant_roles.roles owner_role
only_owner r (Memᴰ.head e) h = absurd (ground (arith, ap (λ y. y.id) e))
only_owner r (Memᴰ.tail (Memᴰ.head e)) h = e
only_owner r (Memᴰ.tail (Memᴰ.tail m)) h = elim m [ ]

owner_role_kept_example :
    Memᴰ owner_role
      (run_roles memory
        (RoleCommand.update 80 1 patch ∷ RoleCommand.remove 80 1 ∷ [])
        tenant_roles).roles
owner_role_kept_example =
    owner_role_kept memory owner_role (RoleCommand.update 80 1 patch ∷ RoleCommand.remove 80 1 ∷ [])
      tenant_roles refl (Memᴰ.tail (Memᴰ.head refl)) only_owner (refl, (tt, tt))

update_role_overwrites_example :
    let dto : RolePatch = record patch {
      id = some 80;
      name = some "owner";
      is_system = some true;
    } in
    (x : CustomRole) × Memᴰ x (update_role memory 81 1 dto tenant_roles).1.roles
    × (x.id ≡ 80)
    × (is_owner_role x ≡ true)
    × (x.permissions ≡ [])
update_role_overwrites_example =
    update_role_overwrites memory owner_role desk 81 1 [] tenant_roles refl refl refl refl

ensure_system_roles_complete_example :
    let s' = (ensure_system_roles memory 2 (λ r. 90) tenant_roles).1 in
    ((role : UserRole)
      → Memᴰ role system_roles
      → has_name role (find_all_by_tenant memory 2 s') ≡ true)
    × ((r : CustomRole) → Memᴰ r tenant_roles.roles → Memᴰ r s'.roles)
    × ((other_id : UserRole → Uuid) → ensure_system_roles memory 2 other_id s' ≡ (ok tt, s'))
ensure_system_roles_complete_example = ensure_system_roles_complete memory 2 (λ r. 90) tenant_roles
