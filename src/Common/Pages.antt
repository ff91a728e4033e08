-- ===== src/Common/Pages.antt =====
-- What the pages of a listing contain and what their descriptions say.
use native.Mathlib.Nat.{le-div_iff_mul-le, add-mul}
use edu_crm_backend.Common.Pagination.{
  drop, total_pages_of, at_least_one, paginate_cursor, get_pagination_params, meta_of, paginate,
}
use edu_crm_backend.Base.{
  sym, inr, length-take, inl, Bool-cases, ltb, ◌∙◌, if◌then◌else◌, refl, ap, last?, ◌/◌, arith,
  zero, ◌∷◌, false, some, ◌-◌, ◌↔◌, suc, Option, true, none, ◌++◌, ◌*◌, ◌≤◌, ◌+◌, length, ◌≡◌, [],
  ◌<◌, take, ℕ, List,
}
use edu_crm_backend.Database.{Uuid}
use edu_crm_backend.Base.Int.{negsuc, pos, ℤ}

-- Pages one to `n` of a listing, one after another.
abbrev pub first_pages {ℓ} : {A : Type ℓ} → List A → ℕ → ℕ → List A
first_pages rows limit zero = []
first_pages rows limit (suc n) =
    first_pages rows limit n ++ (paginate rows (some (suc n)) (some limit)).items

row : (k limit : ℕ) → (k + 1) * limit ≡ k * limit + limit
row k limit = omega (arith, add-mul k 1 limit)

ltb_iff : (a b : ℕ) → (ltb a b ≡ true) ↔ (a < b)
ltb_iff a b = ground arith

enough :
    (total limit : ℕ)
    → 0 < limit
    → (k : ℕ) → (k < (total + (limit - 1)) / limit) ↔ (k * limit < total)
enough total limit h k =
    let both : (k + 1 ≤ (total + (limit - 1)) / limit) ↔ ((k + 1) * limit ≤ total + (limit - 1)) =
      le-div_iff_mul-le h in
    let (to, from) = both in
    let e : (k + 1) * limit ≡ k * limit + limit = row k limit in
    (
      λ b. let c = to (omega (arith, b)) in omega (arith, c, e, h),
      λ b. let c = from (omega (arith, b, e, h)) in omega (arith, c),
    )

take-nil {ℓ} : {A : Type ℓ} (n : ℕ) → take {A = A} n [] ≡ []
take-nil zero = refl
take-nil (suc n) = refl

take-append {ℓ} :
    {A : Type ℓ} (m n : ℕ) (xs : List A) → take m xs ++ take n (drop m xs) ≡ take (m + n) xs
take-append zero n xs = let e : n ≡ 0 + n = omega arith in ap (λ k. take k xs) e
take-append (suc m) n [] = take-nil n ∙ sym (take-nil (suc m + n))
take-append (suc m) n (x ∷ xs) =
    let e : suc (m + n) ≡ suc m + n = omega arith in
    ap (λ l. x ∷ l) (take-append m n xs) ∙ ap (λ k. take k (x ∷ xs)) e

take_all {ℓ} : {A : Type ℓ} (n : ℕ) (xs : List A) → length xs ≤ n → take n xs ≡ xs
take_all zero [] h = refl
take_all zero (x ∷ xs) h = absurd (omega arith)
take_all (suc n) [] h = refl
take_all (suc n) (x ∷ xs) h = ap (λ l. x ∷ l) (take_all n xs (omega arith))

pages_take {ℓ} :
    {A : Type ℓ} (rows : List A) (limit n : ℕ) → first_pages rows limit n ≡ take (n * limit) rows
unfolding paginate
pages_take rows limit zero = let e : 0 ≡ 0 * limit = omega arith in ap (λ k. take k rows) e
pages_take rows limit (suc n) =
    let e : n * limit + limit ≡ suc n * limit = omega (arith, row n limit) in
    let here : suc n - 1 ≡ n = omega arith in
    rw (pages_take rows limit n, here)
      (take-append (n * limit) limit rows ∙ ap (λ k. take k rows) e)

-- A description of a page says that there is a next one exactly if rows are left behind it.
pub meta_has_next :
    (total page limit : ℕ)
    → 0 < limit
    → ((meta_of total page limit).has_next ≡ true) ↔ (page * limit < total)
unfolding meta_of total_pages_of
meta_has_next total page limit h =
    let on : ltb 0 limit ≡ true = (ltb_iff 0 limit).1 h in
    let (to, from) = enough total limit h page in
    let (so, back) = ltb_iff page ((total + (limit - 1)) / limit) in
    rw on ((λ b. to (so b), λ b. back (from b)))

not_lt : (a b : ℕ) → ¬ (a < b) → b ≤ a
not_lt a b h = ground arith

-- For a limit above 0, the pages of a listing, from the first to the last, put together are the
-- listing.
pub paginate_complete {ℓ} :
    {A : Type ℓ} (rows : List A) (limit : ℕ)
    → 0 < limit
    → first_pages rows limit (paginate rows none (some limit)).meta.total_pages ≡ rows
unfolding paginate meta_of total_pages_of
paginate_complete rows limit h =
    let on : ltb 0 limit ≡ true = (ltb_iff 0 limit).1 h in
    let n : ℕ = (length rows + (limit - 1)) / limit in
    let (to, from) = enough (length rows) limit h n in
    rw on (
      pages_take rows limit n
      ∙ take_all (n * limit) rows (not_lt _ _ (λ b. absurd (omega (arith, from b)))))

last_take {ℓ} :
    {A : Type ℓ} (n : ℕ) (xs : List A)
    → 0 < n
    → n < length xs
    → (x : A) × (last? (take n xs) ≡ some x)
last_take zero xs h k = absurd (omega arith)
last_take (suc n) [] h k = absurd (omega arith)
last_take (suc zero) (x ∷ xs) h k = (x, refl)
last_take (suc (suc n)) (x ∷ []) h k = absurd (omega arith)
last_take (suc (suc n)) (x ∷ y ∷ xs) h k = last_take (suc n) (y ∷ xs) (omega arith) (omega arith)

-- For a limit above 0, a page by cursor has at most that many rows; it is the whole list if there
-- are no more; and if there are more, the cursor is the id of the last row of the page.
pub paginate_cursor_page {ℓ} :
    {A : Type ℓ} (id_of : A → Uuid) (rows : List A) (limit : ℕ)
    → 0 < limit
    → let r = paginate_cursor id_of rows limit in
      (length r.items ≤ limit)
      × (r.has_more ≡ false → r.items ≡ rows)
      × (r.has_more ≡ true → (x : A) × (last? r.items ≡ some x) × (r.next_cursor ≡ some (id_of x)))
unfolding paginate_cursor
paginate_cursor_page id_of rows limit h = elim (Bool-cases (ltb limit (length rows))) [
  | inl more ↦
      let len : limit < length rows = (ltb_iff limit (length rows)).0 more in
      let (x, e) = last_take limit rows h len in
      rw more (omega (arith, length-take limit rows), λ b. cc, λ b. (x, e, rw e refl))
  | inr no_more ↦ rw no_more (ground (arith, no_more), λ b. refl, λ b. cc)
]

at_least_one_bound : (x : Option ℤ) (d : ℕ) → 1 ≤ d → 1 ≤ at_least_one x d
unfolding at_least_one
at_least_one_bound none d h = h
at_least_one_bound (some (pos n)) d h = ground arith
at_least_one_bound (some (negsuc n)) d h = omega arith

skipped : (page limit : ℕ) → 1 ≤ page → (page - 1) * limit + limit ≡ page * limit
skipped zero limit h = absurd (omega arith)
skipped (suc n) limit h = let e : suc n - 1 ≡ n = omega arith in rw e (omega (arith, row n limit))

-- Whatever the request asks for, the page is at least 1, the limit between 1 and 100, and the
-- rows skipped are those of the pages before.
pub get_pagination_params_bounds :
    (page limit : Option ℤ)
    → let r = get_pagination_params page limit in
      (1 ≤ r.page) × (1 ≤ r.limit) × (r.limit ≤ 100) × (r.skip + r.limit ≡ r.page * r.limit)
unfolding get_pagination_params
get_pagination_params_bounds page limit =
    let p = at_least_one_bound page 1 (omega arith) in
    let l = at_least_one_bound limit 10 (omega arith) in
    let c : ℕ = if ltb 100 (at_least_one limit 10) then 100 else at_least_one limit 10 in
    (p, ground (arith, l), ground arith, skipped (at_least_one page 1) c p)
