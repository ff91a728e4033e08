-- ===== src/Database/Lookup.antt =====
-- What a query finds in a table, derived from the laws of a repository.
use edu_crm_backend.Base.{
  ◌∷◌, select, length, ◌≤◌, none, sym, Bool-cases, ap, ◌∙◌, ◌≡◌, Bool, true, false, ◌&&◌, some,
  List, Memᴰ, All, All-mem, and_both, Option-cases, inl, inr,
}
use edu_crm_backend.Database.{Repository}
use edu_crm_backend.Database.Rows.{
  mem-select_of, mem-length, All-none, mem-update_rows_inv, update_rows, mem-update_rows_hit,
}

module _ {Row : Type 0} {live : Row → Bool} (db : Repository live) where
  open db use {find_one, find_one_listed, find_one_live, find_one_fits, find_one_none}

  -- A live row that fits is enough for `findOne` to find one.
  pub find_one_total :
      (p : Row → Bool) (rows : List Row) (r : Row)
      → Memᴰ r rows
      → live r ≡ true
      → p r ≡ true
      → (x : Row) × (find_one p rows ≡ some x)
  find_one_total p rows r m l h = elim (Option-cases (find_one p rows)) [
    | inl missed ↦
        let f : (live r && p r) ≡ false =
          All-mem (λ x. (live x && p x) ≡ false) rows (find_one_none p rows missed) m in
        cc (f, and_both (live r) (p r) l h)
    | inr found ↦ found
  ]

  -- A row found before an update of the rows that fit is found after it, as the update set it.
  pub find_one-update_rows :
      (p q : Row → Bool) (f : Row → Row) (rows : List Row) (r : Row)
      → find_one p rows ≡ some r
      → q r ≡ true
      → live (f r) ≡ true
      → p (f r) ≡ true
      → (x : Row) × (find_one p (update_rows q f rows) ≡ some x)
  find_one-update_rows p q f rows r e h l k =
      find_one_total p (update_rows q f rows) (f r)
        (mem-update_rows_hit q f rows (find_one_listed p rows r e) h) l k

  -- Whatever holds of every row holds of the row that is found.
  pub All-find_one {κ} :
      (P : Row → Type κ) (p : Row → Bool) (rows : List Row) (r : Row)
      → All P rows
      → find_one p rows ≡ some r
      → P r
  All-find_one P p rows r h e = All-mem P rows h (find_one_listed p rows r e)

-- The condition fits one row of the table only, as it does where it names a unique column.
abbrev pub OnlyMatch : {Row : Type 0} → (Row → Bool) → List Row → Row → Type 0
OnlyMatch {Row} p rows u = (r : Row) → Memᴰ r rows → p r ≡ true → r ≡ u

pub OnlyMatch-update_rows :
    {Row : Type 0} (p q : Row → Bool) (f : Row → Row) (rows : List Row) (u : Row)
    → OnlyMatch p rows u
    → ((r : Row) → p (f r) ≡ p r)
    → q u ≡ true
    → OnlyMatch p (update_rows q f rows) (f u)
OnlyMatch-update_rows p q f rows u only keeps hits r' m' h =
    let (r, m, e) = mem-update_rows_inv q f rows m' in
    elim (Bool-cases (q r)) [
      | inl hit ↦
          let e' : r' ≡ f r = rw hit at e in
          e' ∙ ap f (only r m (sym (keeps r) ∙ (ap p (sym e') ∙ h)))
      | inr miss ↦
          let e' : r' ≡ r = rw miss at e in
          let same : r ≡ u = only r m (ap p (sym e') ∙ h) in cc (hits, miss, same)
    ]

-- Where the condition fits one row only, that row, as updated, is what is found after an update.
pub find_one-update_only :
    {Row : Type 0} {live : Row → Bool} (db : Repository live) (p q : Row → Bool) (f : Row → Row)
    (rows : List Row) (u : Row)
    → db.find_one p rows ≡ some u
    → OnlyMatch p rows u
    → ((r : Row) → p (f r) ≡ p r)
    → ((r : Row) → live (f r) ≡ live r)
    → q u ≡ true
    → db.find_one p (update_rows q f rows) ≡ some (f u)
find_one-update_only db p q f rows u e only keeps lives hits =
    let (x, found) =
      find_one-update_rows db p q f rows u e hits (lives u ∙ db.find_one_live p rows u e)
        (keeps u ∙ db.find_one_fits p rows u e) in
    found
    ∙ ap some (
        OnlyMatch-update_rows p q f rows u only keeps hits x (db.find_one_listed p _ x found)
          (db.find_one_fits p _ x found))

-- An update that takes the only fitting row out of a condition leaves none.
pub find_one-update_gone :
    {Row : Type 0} {live : Row → Bool} (db : Repository live) (p q : Row → Bool) (f : Row → Row)
    (rows : List Row) (u : Row)
    → OnlyMatch p rows u
    → ((r : Row) → p (f r) ≡ false)
    → q u ≡ true
    → db.find_one p (update_rows q f rows) ≡ none
find_one-update_gone db p q f rows u only gone hits =
    elim (Option-cases (db.find_one p (update_rows q f rows))) [
      | inl missed ↦ missed
      | inr (x, found) ↦
          let (r, m, e) = mem-update_rows_inv q f rows (db.find_one_listed p _ x found) in
          let fits = db.find_one_fits p _ x found in
          elim (Bool-cases (q r)) [
            | inl hit ↦ let g : p x ≡ false = rw (e, hit) (gone r) in cc
            | inr miss ↦
                let same : x ≡ r = rw miss at e in
                let u_same : r ≡ u = only r m (rw same at fits) in
                let h : q r ≡ true = rw u_same hits in cc
          ]
    ]

-- What `findOne` says of how many rows fit.
module _ {Row : Type 0} {live : Row → Bool} (db : Repository live) where
  pub find_one-counted :
      (p : Row → Bool) (rows : List Row) (r : Row)
      → db.find_one p rows ≡ some r
      → 1 ≤ length (select (λ x. live x && p x) rows)
  find_one-counted p rows r e = mem-length _ (
      mem-select_of (λ x. live x && p x) rows (db.find_one_listed p rows r e)
        (and_both _ _ (db.find_one_live p rows r e) (db.find_one_fits p rows r e)))

  pub find_one-uncounted :
      (p : Row → Bool) (rows : List Row)
      → db.find_one p rows ≡ none
      → length (select (λ x. live x && p x) rows) ≡ 0
  find_one-uncounted p rows e = All-none (λ x. live x && p x) rows (db.find_one_none p rows e)

-- After an update that hides every row that fits, none is found.
pub find_one-update_hidden :
    {Row : Type 0} {live : Row → Bool} (db : Repository live) (p q : Row → Bool) (f : Row → Row)
    (rows : List Row)
    → ((r : Row) → p r ≡ true → q r ≡ true)
    → ((r : Row) → live (f r) ≡ false)
    → db.find_one p (update_rows q f rows) ≡ none
find_one-update_hidden {live = live} db p q f rows reaches hides =
    elim (Option-cases (db.find_one p (update_rows q f rows))) [
      | inl missed ↦ missed
      | inr (x, found) ↦
          let (r, m, e) = mem-update_rows_inv q f rows (db.find_one_listed p _ x found) in
          let fits = db.find_one_fits p _ x found in
          let alive = db.find_one_live p _ x found in
          elim (Bool-cases (q r)) [
            | inl hit ↦
                let same : x ≡ f r = rw hit at e in
                let dead : live x ≡ false = ap live same ∙ hides r in cc
            | inr miss ↦
                let same : x ≡ r = rw miss at e in
                let h : q r ≡ true = reaches r (ap p (sym same) ∙ fits) in cc
          ]
    ]

-- Where no row fitted, a fitting row of the table with one row more is that row.
pub find_one-only_new :
    {Row : Type 0} {live : Row → Bool} (db : Repository live) (p : Row → Bool) (u : Row)
    (rows : List Row) (x : Row)
    → db.find_one p rows ≡ none
    → Memᴰ x (u ∷ rows)
    → live x ≡ true
    → p x ≡ true
    → x ≡ u
find_one-only_new db p u rows x free (Memᴰ.head e) alive fits = e
find_one-only_new {live = live} db p u rows x free (Memᴰ.tail m) alive fits =
    let no : (live x && p x) ≡ false =
      All-mem (λ r. (live r && p r) ≡ false) rows (db.find_one_none p rows free) m in
    let yes = and_both (live x) (p x) alive fits in cc
