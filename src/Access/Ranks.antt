-- ===== src/Access/Ranks.antt =====
-- How the table of the guard grows from role to role.
use edu_crm_backend.Base.{arith, true, ◌≡◌}
use edu_crm_backend.Shared.Enums.{Permission, owner, admin, teacher, student, user_view}
use edu_crm_backend.Access.Tables.{granted, grants}
use edu_crm_backend.Access.Values.{value, all_permissions}

-- What the guard lets a student do it lets a teacher do, what it lets a teacher do it lets an admin
-- do, and it lets an owner do everything.
pub grants_monotone :
    (p : Permission)
    → (grants student p ≡ true → grants teacher p ≡ true)
      × (grants teacher p ≡ true → grants admin p ≡ true)
      × (grants owner p ≡ true)
unfolding grants granted all_permissions value
grants_monotone user_view = ground arith
grants_monotone _ = ground arith
