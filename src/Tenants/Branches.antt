-- ===== src/Tenants/Branches.antt =====
-- The branches of a tenant.
use edu_crm_backend.Tenants.Service.{
  set_branches, save_tenant, has_branch, append_branch, has_tenant_id, add_branch, find_tenant,
  Tenant, TenantStore, TenantDb,
}
use edu_crm_backend.Base.{
  str_eq_refl, ◌∙◌, str_eq, inr, ap, [], Bool-cases, inl, refl, arith, ◌||◌, Option-cases, ◌∷◌,
  false, some, true, ◌++◌, All, ◌≡◌, Bool, List, String,
}
use edu_crm_backend.Database.{Uuid}
use edu_crm_backend.Base.Action.{ok_injective, ok}
use edu_crm_backend.Database.Lookup.{OnlyMatch}
use edu_crm_backend.Tenants.Flags.{find_tenant_state, saved_tenant}

has_branch_append :
    (b branch : String) (current : List String)
    → has_branch b (current ++ (branch ∷ [])) ≡ (has_branch b current || str_eq branch b)
has_branch_append b branch [] = ground arith
has_branch_append b branch (x ∷ xs) = let rest = has_branch_append b branch xs in ground arith

or_left : (a b : Bool) → a ≡ true → (a || b) ≡ true
or_left true b h = refl
or_left false b h = cc

or_right : (a b : Bool) → b ≡ true → (a || b) ≡ true
or_right true b h = refl
or_right false b h = h

All-append :
    (P : String → Type 0) (xs : List String) (y : String) → All P xs → P y → All P (xs ++ (y ∷ []))
All-append P [] y h k = (k, tt)
All-append P (x ∷ xs) y (p, h) k = (p, All-append P xs y h k)

module _ (db : TenantDb) where
  branch_there :
      (id : Uuid) (branch : String) (s : TenantStore) (u : Tenant)
      → db.tenants.find_one (has_tenant_id id) s.tenants ≡ some u
      → has_branch branch u.branches ≡ true
      → add_branch db id branch s ≡ (ok u, s)
  unfolding add_branch append_branch find_tenant
  branch_there id branch s u found there = ground arith

  branch_new :
      (id : Uuid) (branch : String) (s : TenantStore) (u : Tenant)
      → db.tenants.find_one (has_tenant_id id) s.tenants ≡ some u
      → has_branch branch u.branches ≡ false
      → add_branch db id branch s
        ≡ find_tenant db id
            (save_tenant db u.id (set_branches (db.stored (u.branches ++ (branch ∷ [])))) s).1
  unfolding add_branch append_branch find_tenant save_tenant
  branch_new id branch s u found absent = ground arith

  there :
      (id : Uuid) (s : TenantStore) (t : Tenant)
      → (find_tenant db id s).0 ≡ ok t
      → db.tenants.find_one (has_tenant_id id) s.tenants ≡ some t
  unfolding find_tenant
  there id s t h = elim (Option-cases (db.tenants.find_one (has_tenant_id id) s.tenants)) [
    | inl missed ↦ absurd (ground arith)
    | inr (x, found) ↦ found ∙ ap some (ok_injective x t (ground arith))
  ]

  -- Adding a branch without a comma to a tenant whose branches have none gives the tenant with the
  -- branch and all branches from before, and adding it again changes nothing. The tenant is the
  -- only row with its id.
  pub add_branch_again :
      (id : Uuid) (branch : String) (s : TenantStore) (u : Tenant)
      → db.tenants.find_one (has_tenant_id id) s.tenants ≡ some u
      → OnlyMatch (has_tenant_id id) s.tenants u
      → All (λ b. db.has_comma b ≡ false) u.branches
      → db.has_comma branch ≡ false
      → let s' = (add_branch db id branch s).1 in
        (t : Tenant) × ((add_branch db id branch s).0 ≡ ok t)
        × (has_branch branch t.branches ≡ true)
        × ((b : String) → has_branch b u.branches ≡ true → has_branch b t.branches ≡ true)
        × (add_branch db id branch s' ≡ (ok t, s'))
  add_branch_again id branch s u found only plain new =
      elim (Bool-cases (has_branch branch u.branches)) [
        | inl is_in ↦
            let same = branch_there id branch s u found is_in in
            (
              u,
              ap (λ p. p.0) same,
              is_in,
              λ b h. h,
              rw same (branch_there id branch s u found is_in),
            )
        | inr absent ↦
            let bs : List String = u.branches ++ (branch ∷ []) in
            let f : Tenant → Tenant = set_branches (db.stored bs) in
            let back : db.stored bs ≡ bs =
              db.stored_lem bs (All-append _ u.branches branch plain new) in
            let as_ = branch_new id branch s u found absent in
            let read = saved_tenant db id f s u found only (λ t. refl) (λ t. refl) in
            let now_in : has_branch branch (db.stored bs) ≡ true =
              rw back
                (has_branch_append branch branch u.branches ∙ or_right _ _ (str_eq_refl branch)) in
            let state : (add_branch db id branch s).1 ≡ (save_tenant db u.id f s).1 =
              ap (λ p. p.1) as_ ∙ find_tenant_state db id _ in
            (
              f u,
              ap (λ p. p.0) as_ ∙ read,
              now_in,
              λ b h. rw back (has_branch_append b branch u.branches ∙ or_left _ _ h),
              rw state (branch_there id branch _ (f u) (there id _ (f u) read) now_in),
            )
      ]
