-- ===== src/Tests/StorageWidgets.antt =====
-- The tab for imported keys at concrete states.
use Prim.Native.String.{String}
use mathlib.Core.Option.{some-injective}
use cscrypto.Base.{
  ◌≡◌, ◌≤◌, refl, sym, Bool, true, not, ◌&&◌, some, List, [], ◌∷◌, ◌++◌, arith, replicate,
  if◌then◌else◌, ok, ◌>>=◌,
}
use text.Mathlib.Text.{◌==◌ as str_eq}
use cscrypto.RequestMaster.{RequestMaster, verify_sender_public_key}
use cscrypto.SignWidget.{decode_sized}
use cscrypto.StorageWidget.{
  StorageWidget, initial, created, set_up_model, new_row, add_key_to_database, database,
}
use cscrypto.StorageWidget.Rows.{PublicKeyRow, Sql, has_id, select_rows}
use cscrypto.StorageWidget.Events.{
  Event, import_clicked, remove_clicked, key_typed, id_typed, trusted_clicked, import_confirmed,
  remove_confirmed, run_events,
}
use cscrypto.StorageWidget.Numbers.{IsNumbered}
use cscrypto.StorageWidget.Reach.{run_events-IsNumbered}
use cscrypto.StorageWidget.Trust.{has_key, add_key_to_database-verify_sender_public_key}
use cscrypto.Tests.Texts.{simple_base58, unary, ones, decode-unary}

abbrev simple_insert : PublicKeyRow → List PublicKeyRow → List PublicKeyRow
simple_insert row rows = if has_id row.id rows then rows else rows ++ (row ∷ [])

-- A table without a parser: a text removes the rows of the holder of that name.
abbrev others : String → PublicKeyRow → Bool
others text row = not (str_eq row.holder_name text)

abbrev simple_sql : Sql
simple_sql = record {
  insert = simple_insert;
  delete = λ text rows. some (select_rows (others text) rows);
  insert-new = λ row rows new. rw new refl;
  delete_lem = λ text rows rows' done. (others text, sym (some-injective _ _ done));
}

abbrev stored : List PublicKeyRow
stored =
    record { id = 4; imported_key = "12"; trusted = "yes"; holder_name = "Ann" }
    ∷ record { id = 2; imported_key = "2"; trusted = "no"; holder_name = "Ben" }
    ∷ []

abbrev imports : List Event
imports =
    import_clicked
    ∷ key_typed (unary (replicate 32 1))
    ∷ trusted_clicked true
    ∷ import_confirmed
    ∷ remove_clicked
    ∷ id_typed "Ann"
    ∷ remove_confirmed
    ∷ import_clicked
    ∷ import_confirmed
    ∷ []

run_events-IsNumbered_example :
    (w : StorageWidget) × ((set_up_model (some stored)
        >>= run_events simple_sql simple_base58 imports)
      ≡ ok w)
    × IsNumbered w
    × (w.record_id ≤ 14)
unfolding created
run_events-IsNumbered_example =
    run_events-IsNumbered simple_sql simple_base58 5 (some stored) imports refl (omega arith)

-- An import that is about to be confirmed.
abbrev importing : StorageWidget
importing = record (initial stored 5) { imported_key = unary (replicate 32 1); trusted_key = true }

decode_sized-importing :
    decode_sized simple_base58 32 (unary (replicate 32 1)) ≡ some (replicate 32 1)
unfolding decode_sized
decode_sized-importing = rw (decode_sized, decode-unary (replicate 32 1)) refl

add_key_to_database-verify_sender_public_key_example :
    (w' : StorageWidget) × (add_key_to_database simple_sql simple_base58 importing ≡ ok w')
    × (w'.rows ≡ stored ++ (new_row importing ∷ []))
    × ((master : RequestMaster)
        → verify_sender_public_key unary (database w') master ≡ (
            if has_key (unary master.sender_pub_key) stored
            then verify_sender_public_key unary (database importing) master
            else (master.connected
                && (str_eq importing.imported_key (unary master.sender_pub_key) && true))))
unfolding initial unary ones
add_key_to_database-verify_sender_public_key_example =
    add_key_to_database-verify_sender_public_key simple_sql simple_base58 importing (replicate 32 1)
      refl (omega arith) refl decode_sized-importing
