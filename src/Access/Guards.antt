-- ===== src/Access/Guards.antt =====
-- common/guards: `RolesGuard` and `PermissionsGuard`. What the reflector finds on
-- the handler or its class, and the user of the request, are arguments; `null` and `undefined` are
-- `none`.
use mathlib.Core.Path.{subst}
use edu_crm_backend.Base.{
  str_eq_iff, ◌⊎◌, and_both, and_right, false, and_left, refl, inr, arith, inl, sym, Bool-cases,
  ◌↔◌, ◌≡◌, Memᴰ, [], none, all, any, if◌then◌else◌, ◌∷◌, some, true, List, str_eq, String, Option,
  Bool,
}
use edu_crm_backend.Shared.Enums.{student, teacher, admin, owner, super_admin, Permission, UserRole}
use edu_crm_backend.Access.Tables.{granted, grants}
use edu_crm_backend.Base.Action.{Error, forbidden, err, ok, Result}
use edu_crm_backend.Access.Values.{same_permission, value}

-- `r === q` on roles
abbrev pub role_value : UserRole → String
role_value super_admin = "super_admin"
role_value owner = "owner"
role_value admin = "admin"
role_value teacher = "teacher"
role_value student = "student"

abbrev pub same_role : UserRole → UserRole → Bool
same_role r q = str_eq (role_value r) (role_value q)

-- `RolesGuard.canActivate`; the message of a refusal names the required roles, which is left out.
pub roles_guard : Option (List UserRole) → Option UserRole → Result Bool
roles_guard none user = ok true
roles_guard (some []) user = ok true
roles_guard (some (r ∷ rs)) none = err (forbidden "Authentication required")
roles_guard (some (r ∷ rs)) (some role) =
    if any (λ q. same_role q role) (r ∷ rs) then ok true else err (forbidden "Access denied.")

-- `PermissionsGuard.canActivate`
pub permissions_guard : Option (List Permission) → Option UserRole → Result Bool
unfolding grants
permissions_guard none user = ok true
permissions_guard (some []) user = ok true
permissions_guard (some (p ∷ ps)) none = err (forbidden "Authentication required")
permissions_guard (some (p ∷ ps)) (some role) =
    if all (grants role) (p ∷ ps) then ok true else err (forbidden "Insufficient permissions")

any-mem :
    {A : Type 0} (p : A → Bool) (rs : List A) → any p rs ≡ true → (r : A) × Memᴰ r rs × (p r ≡ true)
any-mem p [] h = cc
any-mem p (r ∷ rs) h = elim (Bool-cases (p r)) [
  | inl hit ↦ (r, Memᴰ.head refl, hit)
  | inr miss ↦ let (q, m, k) = any-mem p rs (rw miss at h) in (q, Memᴰ.tail m, k)
]

any_of_mem :
    {A : Type 0} (p : A → Bool) (rs : List A) {r : A} → Memᴰ r rs → p r ≡ true → any p rs ≡ true
any_of_mem p [] m h = elim m [ ]
any_of_mem p (q ∷ rs) (Memᴰ.head e) h = rw (sym e, h) refl
any_of_mem p (q ∷ rs) (Memᴰ.tail m) h = ground (arith, any_of_mem p rs m h)

same_role_sound : (r q : UserRole) → same_role r q ≡ true → r ≡ q
same_role_sound super_admin super_admin h = refl
same_role_sound super_admin _ h = cc
same_role_sound owner owner h = refl
same_role_sound owner _ h = cc
same_role_sound admin admin h = refl
same_role_sound admin _ h = cc
same_role_sound teacher teacher h = refl
same_role_sound teacher _ h = cc
same_role_sound student student h = refl
same_role_sound student _ h = cc

same_role_self : (r : UserRole) → same_role r r ≡ true
same_role_self super_admin = refl
same_role_self _ = refl

if_ok_iff : (b : Bool) (e : Error) → ((if b then ok true else err e) ≡ ok true) ↔ (b ≡ true)
if_ok_iff true e = (λ h. refl, λ h. refl)
if_ok_iff false e = (λ h. cc, λ h. cc)

-- The roles guard in front of a handler with required roles lets a user through exactly if the
-- user's role is one of them, and refuses a request with no user.
pub roles_guard_iff :
    (r : UserRole) (rs : List UserRole) (role : UserRole)
    → ((roles_guard (some (r ∷ rs)) (some role) ≡ ok true) ↔ Memᴰ role (r ∷ rs))
      × (roles_guard (some (r ∷ rs)) none ≡ err (forbidden "Authentication required"))
unfolding roles_guard
roles_guard_iff r rs role =
    let test = λ (q : UserRole). same_role q role in
    let (to, from) = if_ok_iff (any test (r ∷ rs)) (forbidden "Access denied.") in
    (
      (
        λ h.
            let (q, m, same) = any-mem test (r ∷ rs) (to h) in
            subst (λ x. Memᴰ x (r ∷ rs)) (same_role_sound q role same) m,
        λ m. from (any_of_mem test (r ∷ rs) m (same_role_self role)),
      ),
      refl,
    )

-- What the guard wants of a handler: nothing where no metadata is found.
abbrev pub required_list : Option (List Permission) → List Permission
required_list none = []
required_list (some ps) = ps

-- Every required permission is, by its text, in the table's list for the role of the user.
abbrev pub Admitted : Option (List Permission) → Option UserRole → Type 0
Admitted required user =
    (p : Permission)
    → Memᴰ p (required_list required)
    → (role : UserRole) × (user ≡ some role)
      × ((q : Permission) × Memᴰ q (granted role) × (value q ≡ value p))

some_injective : (r q : UserRole) → some q ≡ some r → r ≡ q
some_injective r q e = cc

all_mem :
    (f : Permission → Bool) (ps : List Permission)
    → all f ps ≡ true
    → (p : Permission) → Memᴰ p ps
    → f p ≡ true
all_mem f [] h p m = elim m [ ]
all_mem f (q ∷ qs) h p (Memᴰ.head e) = rw e (and_left _ _ h)
all_mem f (q ∷ qs) h p (Memᴰ.tail m) = all_mem f qs (and_right (f q) _ h) p m

all_of_mem :
    (f : Permission → Bool) (ps : List Permission)
    → ((p : Permission) → Memᴰ p ps → f p ≡ true)
    → all f ps ≡ true
all_of_mem f [] h = refl
all_of_mem f (q ∷ qs) h =
    and_both _ _ (h q (Memᴰ.head refl)) (all_of_mem f qs (λ p m. h p (Memᴰ.tail m)))

-- `includes` finds a permission with the same text.
granted_to :
    (role : UserRole) (p : Permission)
    → grants role p ≡ true
    → (q : Permission) × Memᴰ q (granted role) × (value q ≡ value p)
unfolding grants
granted_to role p h =
    let (q, m, same) = any-mem (λ q. same_permission q p) (granted role) h in
    (q, m, (str_eq_iff (value q) (value p)).0 same)

granted_by :
    (role : UserRole) (p q : Permission)
    → Memᴰ q (granted role)
    → value q ≡ value p
    → grants role p ≡ true
unfolding grants
granted_by role p q m same =
    any_of_mem (λ q. same_permission q p) (granted role) m ((str_eq_iff (value q) (value p)).1 same)

-- For whatever a handler requires and whatever user a request has, or none, the permissions guard
-- lets the request through exactly if every required permission is, by its text, in the list of the
-- user's role; a request without a user is let through only where nothing is required. In every
-- other case it throws.
pub permissions_guard_decides :
    (required : Option (List Permission)) (user : Option UserRole)
    → ((permissions_guard required user ≡ ok true) × Admitted required user)
      ⊎ (((e : Error) × (permissions_guard required user ≡ err e)) × ¬ Admitted required user)
unfolding permissions_guard
permissions_guard_decides none user = inl (refl, λ p m. elim m [ ])
permissions_guard_decides (some []) user = inl (refl, λ p m. elim m [ ])
permissions_guard_decides (some (p ∷ ps)) none =
    inr ((_, refl), λ h. let (role, e, _) = h p (Memᴰ.head refl) in cc)
permissions_guard_decides (some (p ∷ ps)) (some role) =
    elim (Bool-cases (all (grants role) (p ∷ ps))) [
      | inl yes_ ↦ inl (
        rw yes_ refl,
        λ q m. (role, refl, granted_to role q (all_mem (grants role) (p ∷ ps) yes_ q m)),
      )
      | inr no_ ↦ inr (
        (forbidden "Insufficient permissions", rw no_ refl),
        λ h.
            let all_ : all (grants role) (p ∷ ps) ≡ true = all_of_mem (grants role) (p ∷ ps) λ q m.
              let (r, e, (x, k, same)) = h q m in
              let own : r ≡ role = some_injective r role e in
              granted_by role q x (subst (λ y. Memᴰ x (granted y)) own k) same in
            cc,
      )
    ]
