-- ===== src/Common/Tests.antt =====
-- Pages of small listings and a slug that is taken.
use edu_crm_backend.Common.Pages.{paginate_complete, first_pages}
use edu_crm_backend.Base.{List, arith, ℕ, false, none, [], ◌∷◌, some, ◌≡◌}
use edu_crm_backend.Common.Pagination.{paginate}
use edu_crm_backend.Text.{codes, Text}
use edu_crm_backend.Common.Slug.{includes_text, generate_unique_slug}
use edu_crm_backend.Common.Fresh.{generate_unique_slug_new}

abbrev listing : List ℕ
listing = 1 ∷ 2 ∷ 3 ∷ []

paginate_complete_example :
    first_pages listing 2 (paginate listing none (some 2)).meta.total_pages ≡ listing
paginate_complete_example = paginate_complete listing 2 (omega arith)

generate_unique_slug_new_example :
    (t : Text) × (generate_unique_slug (λ t. t) (codes "math") (codes "math" ∷ []) ≡ some t)
    × (includes_text (codes "math" ∷ []) t ≡ false)
generate_unique_slug_new_example =
    generate_unique_slug_new (λ t. t) (codes "math") (codes "math" ∷ [])
