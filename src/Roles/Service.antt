-- ===== src/Roles/Service.antt =====
-- modules/roles/roles.service.ts over roles.repository.ts and the entity `CustomRole`.
use edu_crm_backend.Shared.Enums.{UserRole}
use edu_crm_backend.Base.{
  not, select, false, [], str_eq, true, ◌==◌, any, none, some, ◌&&◌, ◌∷◌, Bool, List, or_else,
  Option, String,
}
use edu_crm_backend.Database.{is_live, Instant, Repository, Uuid}
use edu_crm_backend.Base.Action.{
  not_found, forbidden, or_throw, gets, throw_if, modify, ◌>>◌, ◌>>=◌, pure, Action,
}
use edu_crm_backend.Users.Entity.{User, user_live}
use edu_crm_backend.Access.Guards.{role_value}
use edu_crm_backend.Access.Tables.{permissions_for_role}

pub record CustomRole : Type 0 where
  pub id : Uuid
  pub deleted_at : Option Instant
  pub tenant_id : Uuid
  pub name : String
  pub description : Option String
  pub permissions : List String
  pub is_active : Bool
  pub is_system : Bool

abbrev pub role_live : CustomRole → Bool
role_live r = is_live r.deleted_at

pub record CreateRoleDto : Type 0 where
  pub name : String
  pub description : Option String
  pub permissions : List String

-- The body of `PATCH /roles/:id`, a `Partial<CustomRole>` to the service. Its declared type is not
-- a class, so the validation pipe lets every key of the entity through.
pub record RolePatch : Type 0 where
  pub id : Option Uuid
  pub tenant_id : Option Uuid
  pub name : Option String
  pub description : Option (Option String)
  pub permissions : Option (List String)
  pub is_active : Option Bool
  pub is_system : Option Bool

pub record RoleStore : Type 0 where
  pub roles : List CustomRole
  pub users : List User

pub record RoleDb : Type 0 where
  pub roles : Repository role_live
  pub users : Repository user_live

-- The state that `SYSTEM_ROLES` names, in its order.
abbrev pub system_roles : List UserRole
system_roles = UserRole.student ∷ UserRole.teacher ∷ UserRole.admin ∷ UserRole.owner ∷ []

abbrev pub role_of_tenant : Uuid → CustomRole → Bool
role_of_tenant tenant_id r = r.tenant_id == tenant_id && r.is_active

abbrev pub role_in_tenant : Uuid → Uuid → CustomRole → Bool
role_in_tenant id tenant_id r = r.id == id && r.tenant_id == tenant_id

abbrev pub has_role_id : Uuid → CustomRole → Bool
has_role_id id r = r.id == id

-- `Object.assign(role, dto)`
abbrev pub assign_role : RolePatch → CustomRole → CustomRole
assign_role dto r = record r {
  id = or_else dto.id r.id;
  tenant_id = or_else dto.tenant_id r.tenant_id;
  name = or_else dto.name r.name;
  description = or_else dto.description r.description;
  permissions = or_else dto.permissions r.permissions;
  is_active = or_else dto.is_active r.is_active;
  is_system = or_else dto.is_system r.is_system;
}

abbrev pub new_role : Uuid → Uuid → CreateRoleDto → CustomRole
new_role new_id tenant_id dto = record {
  id = new_id;
  deleted_at = none;
  tenant_id = tenant_id;
  name = dto.name;
  description = dto.description;
  permissions = dto.permissions;
  is_active = true;
  is_system = false;
}

-- The row that `ensureSystemRoles` makes for a role.
unfoldable pub system_role : Uuid → Uuid → UserRole → CustomRole
system_role new_id tenant_id role = record {
  id = new_id;
  deleted_at = none;
  tenant_id = tenant_id;
  name = role_value role;
  description = none;
  permissions = permissions_for_role role;
  is_active = true;
  is_system = true;
}

-- `existingNames.has(name)`
abbrev pub has_name : UserRole → List CustomRole → Bool
has_name role roles = any (λ r. str_eq r.name (role_value role)) roles

abbrev pub is_owner_role : CustomRole → Bool
is_owner_role r = r.is_system && str_eq r.name (role_value UserRole.owner)

module _ (db : RoleDb) where
  unfoldable pub insert_role : CustomRole → Action RoleStore (Unit {0})
  insert_role r = modify (λ s. record s { roles = db.roles.insert r s.roles })

  unfoldable pub create_role : CreateRoleDto → Uuid → Uuid → Action RoleStore CustomRole
  unfolding insert_role
  create_role dto tenant_id new_id = do
    insert_role (new_role new_id tenant_id dto)
    pure (new_role new_id tenant_id dto)

  unfoldable pub find_all_by_tenant : Uuid → RoleStore → List CustomRole
  find_all_by_tenant tenant_id s = db.roles.find (role_of_tenant tenant_id) s.roles

  -- The new rows, one for each missing role; each role comes with the id of its row.
  unfoldable pub seed : List UserRole → Uuid → (UserRole → Uuid) → Action RoleStore (Unit {0})
  unfolding insert_role system_role
  seed [] tenant_id new_id = pure tt
  seed (role ∷ rest) tenant_id new_id = do
    insert_role (system_role (new_id role) tenant_id role)
    seed rest tenant_id new_id

  unfoldable pub ensure_system_roles : Uuid → (UserRole → Uuid) → Action RoleStore (Unit {0})
  unfolding seed find_all_by_tenant
  ensure_system_roles tenant_id new_id = do
    existing ← gets (find_all_by_tenant tenant_id)
    seed (select (λ role. not (has_name role existing)) system_roles) tenant_id new_id

  unfoldable pub find_all_roles : Uuid → (UserRole → Uuid) → Action RoleStore (List CustomRole)
  unfolding ensure_system_roles
  find_all_roles tenant_id new_id = do
    ensure_system_roles tenant_id new_id
    gets (find_all_by_tenant tenant_id)

  unfoldable pub find_role : Uuid → Uuid → Action RoleStore CustomRole
  find_role id tenant_id = do
    found ← gets (λ s. db.roles.find_one (role_in_tenant id tenant_id) s.roles)
    or_throw found (not_found "Role not found")

  -- `save` of an entity that was loaded: it writes the row with the entity's present id, or makes
  -- it if there is none.
  unfoldable pub write_role : Option CustomRole → CustomRole → Action RoleStore (Unit {0})
  unfolding insert_role
  write_role none role = insert_role role
  write_role (some old) role =
      modify (λ s. record s { roles = db.roles.update (has_role_id role.id) (λ r. role) s.roles })

  unfoldable pub save_role : CustomRole → Action RoleStore CustomRole
  unfolding write_role
  save_role role = do
    old ← gets (λ s. db.roles.find_one (has_role_id role.id) s.roles)
    write_role old role
    pure role

  unfoldable pub update_role : Uuid → Uuid → RolePatch → Action RoleStore CustomRole
  unfolding find_role save_role
  update_role id tenant_id dto = do
    role ← find_role id tenant_id
    throw_if (is_owner_role role) (forbidden "Owner permissions cannot be modified")
    save_role (assign_role dto role)

  unfoldable pub remove_role : Uuid → Uuid → Action RoleStore (Unit {0})
  unfolding find_role
  remove_role id tenant_id = do
    role ← find_role id tenant_id
    throw_if role.is_system (forbidden "System roles cannot be deleted")
    modify (λ s. record s { roles = db.roles.delete (has_role_id role.id) s.roles })

  unfoldable pub set_custom_role : Uuid → Uuid → Option Uuid → Action RoleStore (Unit {0})
  set_custom_role user_id tenant_id role_id = modify (λ s. record s {
    users =
        db.users.update (λ u. u.id == user_id && u.tenant_id == tenant_id)
          (λ u. record u { custom_role_id = role_id }) s.users;
  })

  unfoldable pub assign_to_user : Uuid → Uuid → Uuid → Action RoleStore (Unit {0})
  unfolding find_role set_custom_role
  assign_to_user role_id user_id tenant_id = do
    find_role role_id tenant_id
    set_custom_role user_id tenant_id (some role_id)

  unfoldable pub revoke_from_user : Uuid → Uuid → Uuid → Action RoleStore (Unit {0})
  unfolding find_role set_custom_role
  revoke_from_user role_id user_id tenant_id = do
    find_role role_id tenant_id
    set_custom_role user_id tenant_id none

  pub get_users_by_role : Uuid → Uuid → Action RoleStore (List User)
  unfolding find_role
  get_users_by_role role_id tenant_id = do
    find_role role_id tenant_id
    gets (λ s.
        db.users.find
          (λ u.
            u.tenant_id == tenant_id
            && elim u.custom_role_id [ none ↦ false | some r ↦ r == role_id ])
          s.users)
