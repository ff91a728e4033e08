-- ===== src/Common/Pagination.antt =====
-- common/utils/pagination.util.ts. Of a query builder only its rows, in its order, are seen: the
-- database skips, takes and counts. Parameters that are no whole numbers are not modelled.
use edu_crm_backend.Base.Int.{negsuc, pos, ℤ}
use edu_crm_backend.Base.{
  [], none, zero, ◌==◌, ◌*◌, ◌/◌, last?, length, ◌∷◌, ◌-◌, ◌+◌, take, suc, or_else, Bool, ltb, some,
  if◌then◌else◌, Option, ℕ, List,
}
use edu_crm_backend.Database.{Uuid}

pub record PaginationMeta : Type 0 where
  pub total : ℕ
  pub page : ℕ
  pub limit : ℕ
  pub total_pages : ℕ
  pub has_next : Bool
  pub has_prev : Bool
  pub has_next_page : Bool
  pub has_prev_page : Bool

pub record PaginatedResult {ℓ} (A : Type ℓ) : Type ℓ where
  pub items : List A
  pub meta : PaginationMeta

pub record CursorPaginatedResult {ℓ} (A : Type ℓ) : Type ℓ where
  pub items : List A
  pub next_cursor : Option Uuid
  pub has_more : Bool

pub record PaginationParams : Type 0 where
  pub page : ℕ
  pub limit : ℕ
  pub skip : ℕ

abbrev pub drop {ℓ} : {A : Type ℓ} → ℕ → List A → List A
drop zero xs = xs
drop (suc n) [] = []
drop (suc n) (x ∷ xs) = drop n xs

-- `limit > 0 ? Math.ceil(total / limit) : 0`
unfoldable pub total_pages_of : ℕ → ℕ → ℕ
total_pages_of total limit = if ltb 0 limit then (total + (limit - 1)) / limit else 0

unfoldable pub meta_of : ℕ → ℕ → ℕ → PaginationMeta
unfolding total_pages_of
meta_of total page limit =
    let total_pages = total_pages_of total limit in
    record {
      total = total;
      page = page;
      limit = limit;
      total_pages = total_pages;
      has_next = ltb page total_pages;
      has_prev = ltb 1 page;
      has_next_page = ltb page total_pages;
      has_prev_page = ltb 1 page;
    }

pub paginate_array {ℓ} : {A : Type ℓ} → List A → ℕ → ℕ → ℕ → PaginatedResult A
unfolding meta_of
paginate_array rows total page limit = record { items = rows; meta = meta_of total page limit }

unfoldable pub paginate {ℓ} : {A : Type ℓ} → List A → Option ℕ → Option ℕ → PaginatedResult A
unfolding meta_of
paginate rows page limit =
    let p = or_else page 1 in
    let l = or_else limit 20 in
    record { items = take l (drop ((p - 1) * l) rows); meta = meta_of (length rows) p l }

unfoldable pub paginate_cursor {ℓ} :
    {A : Type ℓ} → (A → Uuid) → List A → ℕ → CursorPaginatedResult A
paginate_cursor id_of rows limit =
    let has_more = ltb limit (length rows) in
    let page = if has_more then take limit rows else rows in
    record {
      items = page;
      next_cursor =
          if has_more then (elim (last? page) [ none ↦ none | some r ↦ some (id_of r) ]) else none;
      has_more = has_more;
    }

-- `Number(x) || d`: an absent value and 0 give the default. `Math.max(1, …)` follows.
unfoldable pub at_least_one : Option ℤ → ℕ → ℕ
at_least_one none d = d
at_least_one (some (pos n)) d = if n == 0 then d else n
at_least_one (some (negsuc n)) d = 1

unfoldable pub get_pagination_params : Option ℤ → Option ℤ → PaginationParams
unfolding at_least_one
get_pagination_params page limit =
    let p = at_least_one page 1 in
    let n = at_least_one limit 10 in
    let l = if ltb 100 n then 100 else n in record { page = p; limit = l; skip = (p - 1) * l }
