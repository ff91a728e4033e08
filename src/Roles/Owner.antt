-- ===== src/Roles/Owner.antt =====
-- The owner's role through sequences of requests.
use edu_crm_backend.Roles.Service.{
  system_roles, find_all_by_tenant, has_name, new_role, find_all_roles, assign_role, role_in_tenant,
  has_role_id, ensure_system_roles, system_role, revoke_from_user, is_owner_role, write_role,
  assign_to_user, insert_role, save_role, seed, remove_role, create_role, update_role, CustomRole,
  CreateRoleDto, RolePatch, RoleStore, RoleDb,
}
use edu_crm_backend.Shared.Enums.{UserRole}
use edu_crm_backend.Base.{
  and_right, ==_refl, refl, inr, not, inl, Bool-cases, Option-cases, some, All, select, false, none,
  true, ◌≡◌, [], String, ◌==◌, ◌∷◌, Memᴰ, List,
}
use edu_crm_backend.Database.{Uuid}
use edu_crm_backend.Database.Lookup.{OnlyMatch}
use edu_crm_backend.Database.Rows.{mem-update_rows_hit}
use edu_crm_backend.Roles.Steps.{
  Kept-delete, assign_roles, update_refused, Kept-write, removed, listed_state, update_missed,
  Kept-insert, remove_same, Kept, updated,
}

-- The requests that write. A new row comes with its id.
pub data RoleCommand : Type 0 where
  create : CreateRoleDto → Uuid → Uuid → RoleCommand
  find_all : Uuid → (UserRole → Uuid) → RoleCommand
  update : Uuid → Uuid → RolePatch → RoleCommand
  remove : Uuid → Uuid → RoleCommand
  assign : Uuid → Uuid → Uuid → RoleCommand
  revoke : Uuid → Uuid → Uuid → RoleCommand

-- The ids of new rows are new, and no patch brings an id along.
abbrev pub NoId : Uuid → RoleCommand → Type 0
NoId o (RoleCommand.create dto tenant_id new_id) = (new_id == o) ≡ false
NoId o (RoleCommand.find_all tenant_id new_id) = (role : UserRole) → (new_id role == o) ≡ false
NoId o (RoleCommand.update id tenant_id dto) = dto.id ≡ none
NoId o (RoleCommand.remove id tenant_id) = Unit
NoId o (RoleCommand.assign role_id user_id tenant_id) = Unit
NoId o (RoleCommand.revoke role_id user_id tenant_id) = Unit

module _ (db : RoleDb) where
  -- What a request makes of the state, its answer left out.
  pub perform : RoleCommand → RoleStore → RoleStore
  perform (RoleCommand.create dto tenant_id new_id) s = (create_role db dto tenant_id new_id s).1
  perform (RoleCommand.find_all tenant_id new_id) s = (find_all_roles db tenant_id new_id s).1
  perform (RoleCommand.update id tenant_id dto) s = (update_role db id tenant_id dto s).1
  perform (RoleCommand.remove id tenant_id) s = (remove_role db id tenant_id s).1
  perform (RoleCommand.assign role_id user_id tenant_id) s =
      (assign_to_user db role_id user_id tenant_id s).1
  perform (RoleCommand.revoke role_id user_id tenant_id) s =
      (revoke_from_user db role_id user_id tenant_id s).1

  pub run_roles : List RoleCommand → RoleStore → RoleStore
  unfolding perform
  run_roles [] s = s
  run_roles (c ∷ cs) s = run_roles cs (perform c s)

  apart :
      (o r : CustomRole) (rows : List CustomRole)
      → Kept o rows
      → is_owner_role o ≡ true
      → Memᴰ r rows
      → is_owner_role r ≡ false
      → (r.id == o.id) ≡ false
  apart o r rows (m, only) owner k other = elim (Bool-cases (r.id == o.id)) [
    | inl same ↦ let e : r ≡ o = only r k same in cc
    | inr differ ↦ differ
  ]

  Kept-seed :
      (o : CustomRole) (missing : List UserRole) (tenant_id : Uuid) (new_id : UserRole → Uuid)
      (s : RoleStore)
      → ((role : UserRole) → (new_id role == o.id) ≡ false)
      → Kept o s.roles
      → Kept o (seed db missing tenant_id new_id s).1.roles
  unfolding seed insert_role system_role
  Kept-seed o [] tenant_id new_id s new h = h
  Kept-seed o (role ∷ rest) tenant_id new_id s new h = Kept-seed o rest tenant_id new_id _ new (
      rw (db.roles.insert_lem (system_role (new_id role) tenant_id role) s.roles)
        (Kept-insert o (system_role (new_id role) tenant_id role) s.roles (new role) h))

  Kept-save :
      (o new : CustomRole) (s : RoleStore)
      → (new.id == o.id) ≡ false
      → Kept o s.roles
      → Kept o (save_role db new s).1.roles
  unfolding save_role write_role insert_role
  Kept-save o new s differ h =
      elim (Option-cases (db.roles.find_one (has_role_id new.id) s.roles)) [
        | inl fresh ↦
            rw (fresh, db.roles.insert_lem new s.roles) (Kept-insert o new s.roles differ h)
        | inr (old, found) ↦
            rw (found, db.roles.update_lem (has_role_id new.id) (λ r. new) s.roles)
              (Kept-write o new s.roles differ h)
      ]

  Kept-update :
      (o : CustomRole) (id tenant_id : Uuid) (dto : RolePatch) (s : RoleStore)
      → dto.id ≡ none
      → is_owner_role o ≡ true
      → Kept o s.roles
      → Kept o (update_role db id tenant_id dto s).1.roles
  Kept-update o id tenant_id dto s plain owner h =
      elim (Option-cases (db.roles.find_one (role_in_tenant id tenant_id) s.roles)) [
        | inl missed ↦ rw (update_missed db id tenant_id dto s missed) h
        | inr (r, found) ↦ elim (Bool-cases (is_owner_role r)) [
          | inl his ↦ rw (update_refused db id tenant_id dto s r found his) h
          | inr other ↦
              let differ = apart o r s.roles h owner (db.roles.find_one_listed _ _ r found) other in
              rw (updated db id tenant_id dto s r found other)
                (Kept-save o (assign_role dto r) s (rw plain differ) h)
        ]
      ]

  Kept-remove :
      (o : CustomRole) (id tenant_id : Uuid) (s : RoleStore)
      → is_owner_role o ≡ true
      → Kept o s.roles
      → Kept o (remove_role db id tenant_id s).1.roles
  Kept-remove o id tenant_id s owner h =
      elim (Option-cases (db.roles.find_one (role_in_tenant id tenant_id) s.roles)) [
        | inl missed ↦ rw (remove_same db id tenant_id s (λ r found. cc)) h
        | inr (r, found) ↦ elim (Bool-cases r.is_system) [
          | inl his ↦ rw (remove_same db id tenant_id s (λ x e. cc)) h
          | inr other ↦
              let differ =
                apart o r s.roles h owner (db.roles.find_one_listed _ _ r found) (rw other refl) in
              rw (removed db id tenant_id s r found other) (Kept-delete o r.id s.roles differ h)
        ]
      ]

  Kept-perform :
      (o : CustomRole) (c : RoleCommand) (s : RoleStore)
      → NoId o.id c
      → is_owner_role o ≡ true
      → Kept o s.roles
      → Kept o (perform c s).roles
  unfolding perform create_role insert_role ensure_system_roles
  Kept-perform o (RoleCommand.create dto tenant_id new_id) s new owner h =
      rw (db.roles.insert_lem (new_role new_id tenant_id dto) s.roles)
        (Kept-insert o (new_role new_id tenant_id dto) s.roles new h)
  Kept-perform o (RoleCommand.find_all tenant_id new_id) s new owner h =
      rw (listed_state db tenant_id new_id s) (
        Kept-seed o
          (select (λ role. not (has_name role (find_all_by_tenant db tenant_id s))) system_roles)
          tenant_id new_id s new h)
  Kept-perform o (RoleCommand.update id tenant_id dto) s plain owner h =
      Kept-update o id tenant_id dto s plain owner h
  Kept-perform o (RoleCommand.remove id tenant_id) s new owner h =
      Kept-remove o id tenant_id s owner h
  Kept-perform o (RoleCommand.assign role_id user_id tenant_id) s new owner h =
      rw ((assign_roles db role_id user_id tenant_id s).0) h
  Kept-perform o (RoleCommand.revoke role_id user_id tenant_id) s new owner h =
      rw ((assign_roles db role_id user_id tenant_id s).1) h

  -- Whatever requests follow one another, an owner's system role that is the only row with its id
  -- stays in the table as it is, where new rows have new ids and no patch brings an id along.
  pub owner_role_kept :
      (o : CustomRole) (cs : List RoleCommand) (s : RoleStore)
      → is_owner_role o ≡ true
      → Memᴰ o s.roles
      → OnlyMatch (has_role_id o.id) s.roles o
      → All (NoId o.id) cs
      → Memᴰ o (run_roles cs s).roles
  unfolding run_roles
  owner_role_kept o [] s owner m only safe = m
  owner_role_kept o (c ∷ cs) s owner m only (one, rest) =
      let (m', only') = Kept-perform o c s one owner (m, only) in
      owner_role_kept o cs (perform c s) owner m' only' rest

  -- A patch that brings the id of the owner's role along, sent to another role of the same tenant,
  -- overwrites the owner's permissions with those of the patch.
  pub update_role_overwrites :
      (o r : CustomRole) (id tenant_id : Uuid) (permissions : List String) (s : RoleStore)
      → is_owner_role o ≡ true
      → db.roles.find_one (has_role_id o.id) s.roles ≡ some o
      → db.roles.find_one (role_in_tenant id tenant_id) s.roles ≡ some r
      → is_owner_role r ≡ false
      → let dto : RolePatch = record {
        id = some o.id;
        tenant_id = none;
        name = some o.name;
        description = none;
        permissions = some permissions;
        is_active = none;
        is_system = some true;
      } in
        (x : CustomRole) × Memᴰ x (update_role db id tenant_id dto s).1.roles
        × (x.id ≡ o.id)
        × (is_owner_role x ≡ true)
        × (x.permissions ≡ permissions)
  unfolding save_role write_role
  update_role_overwrites o r id tenant_id permissions s owner there found other =
      let dto : RolePatch = record {
        id = some o.id;
        tenant_id = none;
        name = some o.name;
        description = none;
        permissions = some permissions;
        is_active = none;
        is_system = some true;
      } in
      let new : CustomRole = assign_role dto r in
      (
        new,
        rw
            (
              updated db id tenant_id dto s r found other,
              there,
              db.roles.update_lem (has_role_id o.id) (λ x. new) s.roles,
            )
            (mem-update_rows_hit (has_role_id o.id) (λ x. new) s.roles
              (db.roles.find_one_listed _ _ o there) (==_refl o.id)),
        refl,
        and_right o.is_system _ owner,
        refl,
      )
