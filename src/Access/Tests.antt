-- ===== src/Access/Tests.antt =====
-- The guards on single requests.
use edu_crm_backend.Shared.Enums.{user_view, admin}
use edu_crm_backend.Access.Guards.{permissions_guard_decides, Admitted, permissions_guard}
use edu_crm_backend.Base.{◌⊎◌, true, ◌≡◌, [], ◌∷◌, some}
use edu_crm_backend.Base.Action.{err, Error, ok}

permissions_guard_decides_example :
    ((permissions_guard (some (user_view ∷ [])) (some admin) ≡ ok true)
      × Admitted (some (user_view ∷ [])) (some admin))
    ⊎ (((e : Error) × (permissions_guard (some (user_view ∷ [])) (some admin) ≡ err e))
        × ¬ Admitted (some (user_view ∷ [])) (some admin))
permissions_guard_decides_example = permissions_guard_decides (some (user_view ∷ [])) (some admin)
