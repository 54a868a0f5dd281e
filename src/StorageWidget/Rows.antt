-- ===== src/StorageWidget/Rows.antt =====
-- The SQL database behind the widgets, as far as they use it: one table with a primary key.
use Prim.Native.String.{String}
use cscrypto.Base.{
  ℕ, ◌≡◌, Bool, true, false, ◌&&◌, ◌||◌, Option, some, List, [], ◌∷◌, ◌++◌, ◌==◌, ltb,
  if◌then◌else◌,
}

-- A row of `publicKeys`.
pub record PublicKeyRow : Type 0 where
  pub id : ℕ
  pub imported_key : String
  pub trusted : String
  pub holder_name : String

-- A row has this identifier.
abbrev pub has_id : ℕ → List PublicKeyRow → Bool
has_id n [] = false
has_id n (row ∷ rows) = row.id == n || has_id n rows

-- All identifiers are below `n`.
abbrev pub ids_below : ℕ → List PublicKeyRow → Bool
ids_below n [] = true
ids_below n (row ∷ rows) = ltb row.id n && ids_below n rows

-- The rows that pass a test, in their order.
abbrev pub select_rows : (PublicKeyRow → Bool) → List PublicKeyRow → List PublicKeyRow
select_rows keep [] = []
select_rows keep (row ∷ rows) =
    let rest = select_rows keep rows in if keep row then row ∷ rest else rest

-- `insert` is the `INSERT` of a row, whose result the widget does not look at, and `delete text` the
-- `DELETE` of the rows that the text selects, which is `none` if it fails. A row whose
-- identifier is new comes last; other rows the primary key refuses.
pub record Sql : Type 0 where
  pub insert : PublicKeyRow → List PublicKeyRow → List PublicKeyRow
  pub delete : String → List PublicKeyRow → Option (List PublicKeyRow)
  pub insert-new :
      (row : PublicKeyRow) (rows : List PublicKeyRow)
      → has_id row.id rows ≡ false
      → insert row rows ≡ rows ++ (row ∷ [])
  pub delete_lem :
      (text : String) (rows rows' : List PublicKeyRow)
      → delete text rows ≡ some rows'
      → (keep : PublicKeyRow → Bool) × (rows' ≡ select_rows keep rows)
