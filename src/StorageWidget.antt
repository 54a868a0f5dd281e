-- ===== src/StorageWidget.antt =====
-- qt/src/storagewidget.cpp: the tab that imports public keys into the table `publicKeys`, in which the
-- request master looks up who sent a request. The identifiers of the table are those that this code
-- gave, `int` numbers that are not negative.
pub mod Rows
pub mod Events
pub mod Numbers
pub mod Reach
pub mod Trust
use Prim.Native.String.{String}
use text.Mathlib.Text.{◌==◌ as str_eq}
use cscrypto.Base.{
  ℕ, ◌+◌, ◌^◌, Bool, true, false, Option, none, some, List, [], ◌∷◌, map, ltb, if◌then◌else◌,
  Outcome, ok, fault, ◌>>=◌,
}
use cscrypto.Base58.{Base58}
use cscrypto.MainCryptoFunctions.{public_key_size}
use cscrypto.RequestMaster.{Database}
use cscrypto.SignWidget.{decode_sized}
use cscrypto.StorageWidget.Rows.{PublicKeyRow, Sql}

-- `rows` is the table. `import_dialogs` and `remove_dialogs` are the numbers of dialogs that are open.
pub record StorageWidget : Type 0 where
  pub rows : List PublicKeyRow
  pub record_id : ℕ
  pub imported_key : String
  pub holder_name : String
  pub trusted_key : Bool
  pub id_to_remove : String
  pub import_dialogs : ℕ
  pub remove_dialogs : ℕ
  pub status : String

-- `n + 1` in the type `int`, whose overflow is undefined.
unfoldable pub next_int : ℕ → Outcome ℕ
next_int n = if ltb (n + 1) (2 ^ 31) then ok (n + 1) else fault

-- The loop of `setUpModel`.
unfoldable pub next_record_id : ℕ → List PublicKeyRow → Outcome ℕ
next_record_id record_id [] = ok record_id
next_record_id record_id (row ∷ rows) = elim (ltb row.id record_id) [
  | true ↦ next_record_id record_id rows
  | false ↦ next_int row.id >>= (λ next. next_record_id next rows)
]

-- The table before `CREATE TABLE`, which makes an empty one where there is none and otherwise fails.
unfoldable pub created : Option (List PublicKeyRow) → List PublicKeyRow
created none = []
created (some rows) = rows

-- The constructor, with this table and next identifier.
unfoldable pub initial : List PublicKeyRow → ℕ → StorageWidget
initial rows record_id = record {
  rows = rows;
  record_id = record_id;
  imported_key = "";
  holder_name = "";
  trusted_key = false;
  id_to_remove = "";
  import_dialogs = 0;
  remove_dialogs = 0;
  status = "";
}

unfoldable pub set_up_model : Option (List PublicKeyRow) → Outcome StorageWidget
set_up_model table = do
  record_id ← next_record_id 0 (created table)
  ok (initial (created table) record_id)

unfoldable pub import_new_key : StorageWidget → StorageWidget
import_new_key w = record w {
  imported_key = "";
  holder_name = "";
  trusted_key = false;
  import_dialogs = w.import_dialogs + 1;
}

unfoldable pub remove_key : StorageWidget → StorageWidget
remove_key w = record w { id_to_remove = ""; remove_dialogs = w.remove_dialogs + 1 }

unfoldable pub remove_key_from_database : Sql → StorageWidget → StorageWidget
remove_key_from_database sql w =
    if str_eq w.id_to_remove ""
    then record w { status = "Empty id field!" }
    else elim (sql.delete w.id_to_remove w.rows) [
      | none ↦ record w { status = "Invalid id. No keys removed." }
      | some rows ↦ record w { rows = rows }
    ]

-- The row that is bound to the query.
unfoldable pub new_row : StorageWidget → PublicKeyRow
new_row w = record {
  id = w.record_id;
  imported_key = w.imported_key;
  trusted = if w.trusted_key then "yes" else "no";
  holder_name = w.holder_name;
}

unfoldable pub add_key_to_database : Sql → Base58 → StorageWidget → Outcome StorageWidget
add_key_to_database sql b w =
    if str_eq w.imported_key ""
    then ok (record w { status = "Empty public key!" })
    else elim (decode_sized b public_key_size w.imported_key) [
      | none ↦ ok (record w { status = "Invalid public key!" })
      | some pub_bytes ↦ do
        next ← next_int w.record_id
        ok (record w { rows = sql.insert (new_row w) w.rows; record_id = next })
    ]

-- The table as the request master reads it.
unfoldable pub columns : List PublicKeyRow → List (String × String)
columns rows = map (λ row. (row.imported_key, row.trusted)) rows

unfoldable pub database : StorageWidget → Database
database w = record { opens = true; public_keys = some (columns w.rows) }
