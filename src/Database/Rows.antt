-- ===== src/Database/Rows.antt =====
-- The effect of `UPDATE … SET … WHERE` on the rows of a table, and lemmas on it.
use edu_crm_backend.Base.{
  ◌≤◌, All-mem, ◌∙◌, ==_iff, All-of_mem, ◌==◌, ℕ, ◌≡◌, refl, sym, ap, Bool, true, false, List, [],
  ◌∷◌, Memᴰ, All, arith, if◌then◌else◌, Bool-cases, inl, inr, select, length,
}

module _ {Row : Type 0} where
  abbrev pub update_rows : (Row → Bool) → (Row → Row) → List Row → List Row
  update_rows p f [] = []
  update_rows p f (r ∷ rs) = (if p r then f r else r) ∷ update_rows p f rs

  pub mem-update_rows :
      (p : Row → Bool) (f : Row → Row) (rows : List Row) {r : Row}
      → Memᴰ r rows
      → Memᴰ (if p r then f r else r) (update_rows p f rows)
  mem-update_rows p f [] m = elim m [ ]
  mem-update_rows p f (x ∷ rs) (Memᴰ.head e) = Memᴰ.head (ap (λ y. if p y then f y else y) e)
  mem-update_rows p f (x ∷ rs) (Memᴰ.tail m) = Memᴰ.tail (mem-update_rows p f rs m)

  pub mem-update_rows_hit :
      (p : Row → Bool) (f : Row → Row) (rows : List Row) {r : Row}
      → Memᴰ r rows
      → p r ≡ true
      → Memᴰ (f r) (update_rows p f rows)
  mem-update_rows_hit p f rows {r} m h = rw h at (mem-update_rows p f rows m)

  -- A row of the updated table comes from a row that was there.
  pub mem-update_rows_inv :
      (p : Row → Bool) (f : Row → Row) (rows : List Row) {r : Row}
      → Memᴰ r (update_rows p f rows)
      → (x : Row) × Memᴰ x rows × (r ≡ (if p x then f x else x))
  mem-update_rows_inv p f [] m = elim m [ ]
  mem-update_rows_inv p f (x ∷ rs) (Memᴰ.head e) = (x, Memᴰ.head refl, e)
  mem-update_rows_inv p f (x ∷ rs) (Memᴰ.tail m) =
      let (y, k, e) = mem-update_rows_inv p f rs m in (y, Memᴰ.tail k, e)

  pub All-update_rows {κ} :
      (P : Row → Type κ) (p : Row → Bool) (f : Row → Row) (rows : List Row)
      → All P rows
      → ((r : Row) → P r → p r ≡ true → P (f r))
      → All P (update_rows p f rows)
  All-update_rows P p f [] h k = tt
  All-update_rows P p f (r ∷ rs) (h, hs) k = elim (Bool-cases (p r)) [
    | inl hit ↦ rw hit (k r h hit, All-update_rows P p f rs hs k)
    | inr miss ↦ rw miss (h, All-update_rows P p f rs hs k)
  ]

  -- After an update of the rows with `p`, each of these has what `f` sets.
  pub All-update_rows_set {κ} :
      (P : Row → Type κ) (p : Row → Bool) (f : Row → Row) (rows : List Row)
      → ((r : Row) → p r ≡ true → P (f r))
      → ((r : Row) → p r ≡ false → P r)
      → All P (update_rows p f rows)
  All-update_rows_set P p f [] k l = tt
  All-update_rows_set P p f (r ∷ rs) k l = elim (Bool-cases (p r)) [
    | inl hit ↦ rw hit (k r hit, All-update_rows_set P p f rs k l)
    | inr miss ↦ rw miss (l r miss, All-update_rows_set P p f rs k l)
  ]

  pub length-update_rows :
      (p : Row → Bool) (f : Row → Row) (rows : List Row)
      → length (update_rows p f rows) ≡ length rows
  length-update_rows p f [] = refl
  length-update_rows p f (r ∷ rs) = omega (arith, length-update_rows p f rs)

  mem-select_hit :
      (p : Row → Bool) (x : Row) (rs : List Row) {r : Row}
      → p x ≡ true
      → (Memᴰ r (select p rs) → Memᴰ r rs × (p r ≡ true))
      → Memᴰ r (x ∷ select p rs)
      → Memᴰ r (x ∷ rs) × (p r ≡ true)
  mem-select_hit p x rs hit rec (Memᴰ.head e) = (Memᴰ.head e, rw e hit)
  mem-select_hit p x rs hit rec (Memᴰ.tail m) = let (k, e) = rec m in (Memᴰ.tail k, e)

  pub mem-select :
      (p : Row → Bool) (rows : List Row) {r : Row}
      → Memᴰ r (select p rows)
      → Memᴰ r rows × (p r ≡ true)
  mem-select p [] m = elim m [ ]
  mem-select p (x ∷ rs) m = elim (Bool-cases (p x)) [
    | inl hit ↦ mem-select_hit p x rs hit (mem-select p rs) (rw hit at m)
    | inr miss ↦ let (k, e) = mem-select p rs (rw miss at m) in (Memᴰ.tail k, e)
  ]

  pub mem-select_of :
      (p : Row → Bool) (rows : List Row) {r : Row}
      → Memᴰ r rows
      → p r ≡ true
      → Memᴰ r (select p rows)
  mem-select_of p [] m h = elim m [ ]
  mem-select_of p (x ∷ rs) (Memᴰ.head e) h = rw (sym e, h) (Memᴰ.head refl)
  mem-select_of p (x ∷ rs) (Memᴰ.tail m) h = elim (Bool-cases (p x)) [
    | inl hit ↦ rw hit (Memᴰ.tail (mem-select_of p rs m h))
    | inr miss ↦ rw miss (mem-select_of p rs m h)
  ]

-- No two rows of the table share a key: the primary key of the table.
abbrev pub UniqueBy : {Row : Type 0} → (Row → ℕ) → List Row → Type 0
UniqueBy {Row} key rows = (a b : Row) → Memᴰ a rows → Memᴰ b rows → key a ≡ key b → a ≡ b

-- An update by key of a row that is there reaches no other row.
pub All-update_rows_unique {κ} :
    {Row : Type 0} (P : Row → Type κ) (key : Row → ℕ) (f : Row → Row) (rows : List Row) (r : Row)
    → UniqueBy key rows
    → Memᴰ r rows
    → All P rows
    → P (f r)
    → All P (update_rows (λ x. key x == key r) f rows)
All-update_rows_unique P key f rows r unique m h k =
    All-of_mem P (update_rows (λ x. key x == key r) f rows) λ y l.
      let (x, n, e) = mem-update_rows_inv (λ x. key x == key r) f rows l in
      elim (Bool-cases (key x == key r)) [
        | inl hit ↦
            let same : r ≡ x = unique r x m n (sym ((==_iff _ _).0 hit)) in
            rw (rw hit at e ∙ ap f (sym same)) k
        | inr miss ↦ rw (rw miss at e) (All-mem P rows h n)
      ]

-- A table of one row.
pub UniqueBy-one : {Row : Type 0} (key : Row → ℕ) (r : Row) → UniqueBy key (r ∷ [])
UniqueBy-one key r a b (Memᴰ.head e) (Memᴰ.head f) k = cc
UniqueBy-one key r a b (Memᴰ.head e) (Memᴰ.tail n) k = elim n [ ]
UniqueBy-one key r a b (Memᴰ.tail m) n k = elim m [ ]

module _ {Row : Type 0} where
  -- How many rows fit after an update, told by the rows before.
  pub count-update_rows :
      (p p' q : Row → Bool) (f : Row → Row) (rows : List Row)
      → ((r : Row) → q r ≡ true → p (f r) ≡ p' r)
      → ((r : Row) → q r ≡ false → p r ≡ p' r)
      → length (select p (update_rows q f rows)) ≡ length (select p' rows)
  count-update_rows p p' q f [] h k = refl
  count-update_rows p p' q f (r ∷ rs) h k =
      let rest = count-update_rows p p' q f rs h k in
      let one : p (if q r then f r else r) ≡ p' r = elim (Bool-cases (q r)) [
        | inl hit ↦ rw hit (h r hit)
        | inr miss ↦ rw miss (k r miss)
      ] in
      elim (Bool-cases (p' r)) [
        | inl hit ↦ rw (one ∙ hit, hit) (omega (arith, rest))
        | inr miss ↦ rw (one ∙ miss, miss) rest
      ]

  pub count_none : (rows : List Row) → length (select (λ r. false) rows) ≡ 0
  count_none [] = refl
  count_none (r ∷ rs) = count_none rs

module _ {Row : Type 0} where
  pub mem-length : (rows : List Row) {r : Row} → Memᴰ r rows → 1 ≤ length rows
  mem-length [] m = elim m [ ]
  mem-length (x ∷ rs) m = omega arith

  pub All-none :
      (p : Row → Bool) (rows : List Row) → All (λ r. p r ≡ false) rows → length (select p rows) ≡ 0
  All-none p [] h = refl
  All-none p (r ∷ rs) (h, hs) = rw h (All-none p rs hs)

  pub update_rows_id : (p : Row → Bool) (rows : List Row) → update_rows p (λ r. r) rows ≡ rows
  update_rows_id p [] = refl
  update_rows_id p (r ∷ rs) = elim (Bool-cases (p r)) [
    | inl hit ↦ rw hit (ap (λ l. r ∷ l) (update_rows_id p rs))
    | inr miss ↦ rw miss (ap (λ l. r ∷ l) (update_rows_id p rs))
  ]

  -- An update that no row fits changes nothing.
  pub update_rows_none :
      (p : Row → Bool) (f : Row → Row) (rows : List Row)
      → All (λ r. p r ≡ false) rows
      → update_rows p f rows ≡ rows
  update_rows_none p f [] h = refl
  update_rows_none p f (r ∷ rs) (h, hs) = rw h (ap (λ l. r ∷ l) (update_rows_none p f rs hs))
