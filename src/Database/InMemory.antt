-- ===== src/Database/InMemory.antt =====
-- A repository over a plain list, which shows that the laws of `Repository` can be met. The
-- witnesses run on it.
use edu_crm_backend.Base.{
  ◌≡◌, refl, sym, Bool, true, false, ◌&&◌, not, none, some, List, [], ◌∷◌, Memᴰ, All, length,
  select, find_first, and_left, and_right, Bool-cases, inl, inr,
}
use edu_crm_backend.Database.{Repository}
use edu_crm_backend.Database.Rows.{update_rows}

module _ {Row : Type 0} where
  pub find_first-listed :
      (p : Row → Bool) (rows : List Row) (r : Row)
      → find_first p rows ≡ some r
      → Memᴰ r rows × (p r ≡ true)
  find_first-listed p [] r e = cc
  find_first-listed p (x ∷ rs) r e = elim (Bool-cases (p x)) [
    | inl hit ↦ let same : x ≡ r = cc (rw hit at e) in (Memᴰ.head (sym same), rw (← same) hit)
    | inr miss ↦ let (m, h) = find_first-listed p rs r (rw miss at e) in (Memᴰ.tail m, h)
  ]

  pub find_first-none :
      (p : Row → Bool) (rows : List Row) → find_first p rows ≡ none → All (λ r. p r ≡ false) rows
  find_first-none p [] e = tt
  find_first-none p (x ∷ rs) e = elim (Bool-cases (p x)) [
    | inl hit ↦ cc (rw hit at e)
    | inr miss ↦ (miss, find_first-none p rs (rw miss at e))
  ]

module _ {Row : Type 0} (live : Row → Bool) where
  abbrev pub in_memory : Repository live
  in_memory = record {
    find_one = λ p rows. find_first (λ r. live r && p r) rows;
    find_one_listed = λ p rows r e. (find_first-listed (λ r. live r && p r) rows r e).0;
    find_one_live =
        λ p rows r e. and_left (live r) (p r) (find_first-listed (λ r. live r && p r) rows r e).1;
    find_one_fits =
        λ p rows r e. and_right (live r) (p r) (find_first-listed (λ r. live r && p r) rows r e).1;
    find_one_none = λ p rows e. find_first-none (λ r. live r && p r) rows e;
    find = λ p rows. select (λ r. live r && p r) rows;
    find_iff = λ p rows r. (λ m. m, λ m. m);
    count = λ p rows. length (select (λ r. live r && p r) rows);
    count_lem = λ p rows. refl;
    update = λ p f rows. update_rows p f rows;
    update_lem = λ p f rows. refl;
    insert = λ r rows. r ∷ rows;
    insert_lem = λ r rows. refl;
    delete = λ p rows. select (λ r. not (p r)) rows;
    delete_lem = λ p rows. refl;
  }
