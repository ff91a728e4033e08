-- ===== src/Database.antt =====
-- What the services use of TypeORM and Postgres. Neither is part of the repository: a
-- repository is a parameter, a record of operations with the laws that the services rely on.
-- A table is the list of its rows. Which of several fitting rows `findOne` returns is left open.
pub mod Rows
pub mod InMemory
pub mod Lookup
use edu_crm_backend.Base.{
  ℕ, ◌≡◌, Bool, true, false, ◌&&◌, not, Option, none, some, List, ◌∷◌, Memᴰ, All, length, select,
  if◌then◌else◌,
}
use edu_crm_backend.Database.Rows.{update_rows}

-- Identifiers (UUID columns) are only compared, and instants are milliseconds since the epoch.
abbrev pub Uuid : Type 0
Uuid = ℕ

abbrev pub Instant : Type 0
Instant = ℕ

-- The rows that `find` and its kin can see: `deletedAt` is null.
abbrev pub is_live : Option Instant → Bool
is_live none = true
is_live (some t) = false

-- A query by a condition: `find`, `findOne`, `getOne` and `count` skip rows with `deletedAt` set,
-- `update` does not.
pub record Repository {Row : Type 0} (live : Row → Bool) : Type 0 where
  pub find_one : (Row → Bool) → List Row → Option Row
  pub find_one_listed :
      (p : Row → Bool) (rows : List Row) (r : Row) → find_one p rows ≡ some r → Memᴰ r rows
  pub find_one_live :
      (p : Row → Bool) (rows : List Row) (r : Row) → find_one p rows ≡ some r → live r ≡ true
  pub find_one_fits :
      (p : Row → Bool) (rows : List Row) (r : Row) → find_one p rows ≡ some r → p r ≡ true
  pub find_one_none :
      (p : Row → Bool) (rows : List Row)
      → find_one p rows ≡ none
      → All (λ r. (live r && p r) ≡ false) rows
  pub find : (Row → Bool) → List Row → List Row
  pub find_iff :
      (p : Row → Bool) (rows : List Row) (r : Row)
      → (Memᴰ r (find p rows) → Memᴰ r (select (λ r. live r && p r) rows))
        × (Memᴰ r (select (λ r. live r && p r) rows) → Memᴰ r (find p rows))
  pub count : (Row → Bool) → List Row → ℕ
  pub count_lem :
      (p : Row → Bool) (rows : List Row) → count p rows ≡ length (select (λ r. live r && p r) rows)
  pub update : (Row → Bool) → (Row → Row) → List Row → List Row
  pub update_lem :
      (p : Row → Bool) (f : Row → Row) (rows : List Row) → update p f rows ≡ update_rows p f rows
  pub insert : Row → List Row → List Row
  pub insert_lem : (r : Row) (rows : List Row) → insert r rows ≡ r ∷ rows
  pub delete : (Row → Bool) → List Row → List Row
  pub delete_lem : (p : Row → Bool) (rows : List Row) → delete p rows ≡ select (λ r. not (p r)) rows
