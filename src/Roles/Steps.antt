-- ===== src/Roles/Steps.antt =====
-- How single operations of modules/roles/roles.service.ts change the table, and what that keeps.
use edu_crm_backend.Roles.Service.{
  assign_role, save_role, is_owner_role, has_role_id, set_custom_role, role_in_tenant,
  ensure_system_roles, find_role, revoke_from_user, update_role, find_all_roles, remove_role,
  assign_to_user, CustomRole, RolePatch, RoleStore, RoleDb,
}
use edu_crm_backend.Shared.Enums.{UserRole}
use edu_crm_backend.Base.{
  sym, ◌∙◌, Bool-cases, inr, true, not, ap, inl, some, select, arith, Option-cases, none, ◌∷◌,
  false, ◌≡◌, ◌==◌, Memᴰ, ℕ, List,
}
use edu_crm_backend.Database.{Uuid}
use edu_crm_backend.Database.Lookup.{OnlyMatch}
use edu_crm_backend.Base.Action.{Result-cases}
use edu_crm_backend.Database.Rows.{
  mem-select, mem-select_of, mem-update_rows_inv, mem-update_rows, update_rows,
}

-- The row is there and is the only one with its id.
abbrev pub Kept : CustomRole → List CustomRole → Type 0
Kept o rows = Memᴰ o rows × OnlyMatch (has_role_id o.id) rows o

only_tail :
    (o r : CustomRole) (rows : List CustomRole)
    → (r.id == o.id) ≡ false
    → OnlyMatch (has_role_id o.id) rows o
    → OnlyMatch (has_role_id o.id) (r ∷ rows) o
only_tail o r rows new only x (Memᴰ.head e) h = absurd (ground (arith, ap (λ y. y.id) e))
only_tail o r rows new only x (Memᴰ.tail k) h = only x k h

pub Kept-insert :
    (o r : CustomRole) (rows : List CustomRole)
    → (r.id == o.id) ≡ false
    → Kept o rows
    → Kept o (r ∷ rows)
Kept-insert o r rows new (m, only) = (Memᴰ.tail m, only_tail o r rows new only)

flip_false : (a b : ℕ) → (a == b) ≡ false → (b == a) ≡ false
flip_false a b h = ground arith

pub Kept-write :
    (o new : CustomRole) (rows : List CustomRole)
    → (new.id == o.id) ≡ false
    → Kept o rows
    → Kept o (update_rows (has_role_id new.id) (λ r. new) rows)
Kept-write o new rows apart (m, only) = (
  rw (flip_false _ _ apart) at (mem-update_rows (has_role_id new.id) (λ r. new) rows m),
  λ x k h.
      let (r, l, e) = mem-update_rows_inv (has_role_id new.id) (λ r. new) rows k in
      elim (Bool-cases (r.id == new.id)) [
        | inl hit ↦ let same : x ≡ new = rw hit at e in absurd (ground (arith, ap (λ y. y.id) same))
        | inr miss ↦
            let same : x ≡ r = rw miss at e in
            same ∙ only r l (ap (has_role_id o.id) (sym same) ∙ h)
      ],
)

pub Kept-delete :
    (o : CustomRole) (id : Uuid) (rows : List CustomRole)
    → (id == o.id) ≡ false
    → Kept o rows
    → Kept o (select (λ r. not (has_role_id id r)) rows)
Kept-delete o id rows apart (m, only) = (
  mem-select_of (λ r. not (has_role_id id r)) rows m (ground arith),
  λ x k h. only x (mem-select (λ r. not (has_role_id id r)) rows k).0 h,
)

module _ (db : RoleDb) where
  pub update_missed :
      (id tenant_id : Uuid) (dto : RolePatch) (s : RoleStore)
      → db.roles.find_one (role_in_tenant id tenant_id) s.roles ≡ none
      → (update_role db id tenant_id dto s).1 ≡ s
  unfolding update_role find_role
  update_missed id tenant_id dto s missed = ground arith

  pub update_refused :
      (id tenant_id : Uuid) (dto : RolePatch) (s : RoleStore) (r : CustomRole)
      → db.roles.find_one (role_in_tenant id tenant_id) s.roles ≡ some r
      → is_owner_role r ≡ true
      → (update_role db id tenant_id dto s).1 ≡ s
  unfolding update_role find_role
  update_refused id tenant_id dto s r found his = ground arith

  pub updated :
      (id tenant_id : Uuid) (dto : RolePatch) (s : RoleStore) (r : CustomRole)
      → db.roles.find_one (role_in_tenant id tenant_id) s.roles ≡ some r
      → is_owner_role r ≡ false
      → (update_role db id tenant_id dto s).1 ≡ (save_role db (assign_role dto r) s).1
  unfolding update_role find_role
  updated id tenant_id dto s r found other = ground arith

  pub remove_same :
      (id tenant_id : Uuid) (s : RoleStore)
      → ((r : CustomRole)
          → db.roles.find_one (role_in_tenant id tenant_id) s.roles ≡ some r
          → r.is_system ≡ true)
      → (remove_role db id tenant_id s).1 ≡ s
  unfolding remove_role find_role
  remove_same id tenant_id s h =
      elim (Option-cases (db.roles.find_one (role_in_tenant id tenant_id) s.roles)) [
        | inl missed ↦ ground arith
        | inr (r, found) ↦ let his = h r found in ground arith
      ]

  pub removed :
      (id tenant_id : Uuid) (s : RoleStore) (r : CustomRole)
      → db.roles.find_one (role_in_tenant id tenant_id) s.roles ≡ some r
      → r.is_system ≡ false
      → (remove_role db id tenant_id s).1.roles ≡ select (λ x. not (has_role_id r.id x)) s.roles
  unfolding remove_role find_role
  removed id tenant_id s r found other =
      ground (arith, db.roles.delete_lem (has_role_id r.id) s.roles)

  pub assign_roles :
      (role_id user_id tenant_id : Uuid) (s : RoleStore)
      → ((assign_to_user db role_id user_id tenant_id s).1.roles ≡ s.roles)
        × ((revoke_from_user db role_id user_id tenant_id s).1.roles ≡ s.roles)
  unfolding assign_to_user revoke_from_user find_role set_custom_role
  assign_roles role_id user_id tenant_id s =
      elim (Option-cases (db.roles.find_one (role_in_tenant role_id tenant_id) s.roles)) [
        | inl missed ↦ (ground arith, ground arith)
        | inr (r, found) ↦ (ground arith, ground arith)
      ]

  pub listed_state :
      (tenant_id : Uuid) (new_id : UserRole → Uuid) (s : RoleStore)
      → (find_all_roles db tenant_id new_id s).1 ≡ (ensure_system_roles db tenant_id new_id s).1
  unfolding find_all_roles
  listed_state tenant_id new_id s =
      elim (Result-cases (ensure_system_roles db tenant_id new_id s).0) [
        | inl (e, failed) ↦ ground arith
        | inr (a, fine) ↦ ground arith
      ]
