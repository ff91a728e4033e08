-- ===== src/Roles/Seeding.antt =====
-- `ensureSystemRoles` makes what is missing, once.
use edu_crm_backend.Roles.Service.{
  role_of_tenant, has_name, role_live, system_roles, insert_role, ensure_system_roles,
  find_all_by_tenant, seed, system_role, CustomRole, RoleStore, RoleDb,
}
use edu_crm_backend.Shared.Enums.{UserRole}
use edu_crm_backend.Database.{Uuid}
use edu_crm_backend.Base.{
  and_right, and_both, and_left, ◌&&◌, inr, inl, str_eq_refl, not, ◌∙◌, str_eq, sym, ==_refl,
  Bool-cases, refl, select, [], true, ap, ◌∷◌, ◌≡◌, any, Memᴰ, List, Bool,
}
use edu_crm_backend.Base.Action.{ok}
use edu_crm_backend.Access.Guards.{role_value}
use edu_crm_backend.Database.Rows.{mem-select_of, mem-select}

any_mem :
    {A : Type 0} (p : A → Bool) (xs : List A) → any p xs ≡ true → (x : A) × Memᴰ x xs × (p x ≡ true)
any_mem p [] h = cc
any_mem p (x ∷ xs) h = elim (Bool-cases (p x)) [
  | inl hit ↦ (x, Memᴰ.head refl, hit)
  | inr miss ↦ let (y, m, e) = any_mem p xs (rw miss at h) in (y, Memᴰ.tail m, e)
]

any_of_mem :
    {A : Type 0} (p : A → Bool) (xs : List A) (x : A) → Memᴰ x xs → p x ≡ true → any p xs ≡ true
any_of_mem p [] x m h = elim m [ ]
any_of_mem p (y ∷ ys) x (Memᴰ.head e) h = rw (ap p (sym e) ∙ h) refl
any_of_mem p (y ∷ ys) x (Memᴰ.tail m) h = elim (Bool-cases (p y)) [
  | inl hit ↦ rw hit refl
  | inr miss ↦ rw miss (any_of_mem p ys x m h)
]

select_none :
    {A : Type 0} (p : A → Bool) (xs : List A)
    → ((x : A) → Memᴰ x xs → p x ≡ true)
    → select (λ x. not (p x)) xs ≡ []
select_none p [] h = refl
select_none p (x ∷ xs) h = rw (h x (Memᴰ.head refl)) (select_none p xs (λ y m. h y (Memᴰ.tail m)))

module _ (db : RoleDb) (tenant_id : Uuid) where
  seed_keeps :
      (missing : List UserRole) (new_id : UserRole → Uuid) (s : RoleStore) (r : CustomRole)
      → Memᴰ r s.roles
      → Memᴰ r (seed db missing tenant_id new_id s).1.roles
  unfolding seed insert_role
  seed_keeps [] new_id s r m = m
  seed_keeps (role ∷ rest) new_id s r m =
      seed_keeps rest new_id _ r
        (rw (db.roles.insert_lem (system_role (new_id role) tenant_id role) s.roles) (Memᴰ.tail m))

  seed_adds :
      (missing : List UserRole) (new_id : UserRole → Uuid) (s : RoleStore) (role : UserRole)
      → Memᴰ role missing
      → Memᴰ (system_role (new_id role) tenant_id role) (seed db missing tenant_id new_id s).1.roles
  unfolding seed insert_role
  seed_adds [] new_id s role m = elim m [ ]
  seed_adds (x ∷ rest) new_id s role (Memᴰ.head e) =
      seed_keeps rest new_id _ (system_role (new_id role) tenant_id role) (
        rw (db.roles.insert_lem (system_role (new_id x) tenant_id x) s.roles)
          (Memᴰ.head (ap (λ y. system_role (new_id y) tenant_id y) e)))
  seed_adds (x ∷ rest) new_id s role (Memᴰ.tail m) = seed_adds rest new_id _ role m

  seed_done :
      (missing : List UserRole) (new_id : UserRole → Uuid) (s : RoleStore)
      → (seed db missing tenant_id new_id s).0 ≡ ok tt
  unfolding seed insert_role
  seed_done [] new_id s = refl
  seed_done (role ∷ rest) new_id s = seed_done rest new_id _

  -- A row of the table that the list of the tenant's roles shows.
  listed :
      (s : RoleStore) (role : UserRole) (r : CustomRole)
      → Memᴰ r s.roles
      → role_live r ≡ true
      → role_of_tenant tenant_id r ≡ true
      → str_eq r.name (role_value role) ≡ true
      → has_name role (find_all_by_tenant db tenant_id s) ≡ true
  unfolding find_all_by_tenant
  listed s role r m alive fits named =
      any_of_mem _ _ r
        ((db.roles.find_iff (role_of_tenant tenant_id) s.roles r).1 (
          mem-select_of (λ x. role_live x && role_of_tenant tenant_id x) s.roles m
            (and_both _ _ alive fits)))
        named

  still_listed :
      (s s' : RoleStore) (role : UserRole)
      → ((r : CustomRole) → Memᴰ r s.roles → Memᴰ r s'.roles)
      → has_name role (find_all_by_tenant db tenant_id s) ≡ true
      → has_name role (find_all_by_tenant db tenant_id s') ≡ true
  unfolding find_all_by_tenant
  still_listed s s' role keeps h =
      let (r, m, named) =
        any_mem (λ x. str_eq x.name (role_value role))
          (db.roles.find (role_of_tenant tenant_id) s.roles) h in
      let (k, fits) =
        mem-select (λ x. role_live x && role_of_tenant tenant_id x) s.roles
          ((db.roles.find_iff (role_of_tenant tenant_id) s.roles r).0 m) in
      listed s' role r (keeps r k) (and_left _ _ fits) (and_right (role_live r) _ fits) named

  new_listed :
      (s : RoleStore) (new_id : Uuid) (role : UserRole)
      → Memᴰ (system_role new_id tenant_id role) s.roles
      → has_name role (find_all_by_tenant db tenant_id s) ≡ true
  unfolding system_role
  new_listed s new_id role m =
      listed s role (system_role new_id tenant_id role) m refl (rw (==_refl tenant_id) refl)
        (str_eq_refl (role_value role))

  again :
      (new_id : UserRole → Uuid) (s : RoleStore)
      → ((role : UserRole)
          → Memᴰ role system_roles
          → has_name role (find_all_by_tenant db tenant_id s) ≡ true)
      → ensure_system_roles db tenant_id new_id s ≡ (ok tt, s)
  unfolding ensure_system_roles seed
  again new_id s shows =
      ap (λ missing. seed db missing tenant_id new_id s)
        (select_none (λ role. has_name role (find_all_by_tenant db tenant_id s)) system_roles shows)

  -- After `ensureSystemRoles` the list of the tenant's roles shows each of the four system roles, no
  -- row is lost, and calling it again, whatever the new ids, changes nothing.
  pub ensure_system_roles_complete :
      (new_id : UserRole → Uuid) (s : RoleStore)
      → let s' = (ensure_system_roles db tenant_id new_id s).1 in
        ((role : UserRole)
          → Memᴰ role system_roles
          → has_name role (find_all_by_tenant db tenant_id s') ≡ true)
        × ((r : CustomRole) → Memᴰ r s.roles → Memᴰ r s'.roles)
        × ((other_id : UserRole → Uuid)
            → ensure_system_roles db tenant_id other_id s' ≡ (ok tt, s'))
  unfolding ensure_system_roles
  ensure_system_roles_complete new_id s =
      let existing = find_all_by_tenant db tenant_id s in
      let missing = select (λ role. not (has_name role existing)) system_roles in
      let s' : RoleStore = (ensure_system_roles db tenant_id new_id s).1 in
      let keeps : (r : CustomRole) → Memᴰ r s.roles → Memᴰ r s'.roles =
        λ r m. seed_keeps missing new_id s r m in
      let shows : (role : UserRole)
          → Memᴰ role system_roles
          → has_name role (find_all_by_tenant db tenant_id s') ≡ true =
        λ role m. elim (Bool-cases (has_name role existing)) [
          | inl there ↦ still_listed s s' role keeps there
          | inr absent ↦ new_listed s' (new_id role) role (
              seed_adds missing new_id s role
                (mem-select_of (λ x. not (has_name x existing)) system_roles m (rw absent refl)))
        ] in
      (shows, keeps, λ other_id. again other_id s' shows)
