-- ===== src/StorageWidget/Trust.antt =====
-- What an import changes for the request master.
use Prim.Native.String.{String}
use text.Mathlib.Text.{◌==◌ as str_eq}
use cscrypto.Base.{
  ℕ, ◌+◌, ◌^◌, ◌≡◌, ◌<◌, inl, inr, refl, ap, ◌∙◌, Bool, Bool-cases, true, false, ◌&&◌, ◌||◌, some,
  List, [], ◌∷◌, ◌++◌, if◌then◌else◌, ok,
}
use cscrypto.Base58.{Base58}
use cscrypto.MainCryptoFunctions.{public_key_size}
use cscrypto.RequestMaster.{RequestMaster, is_trusted, find_sender, verify_sender_public_key}
use cscrypto.SignWidget.{decode_sized}
use cscrypto.StorageWidget.{StorageWidget, new_row, add_key_to_database, columns, database}
use cscrypto.StorageWidget.Rows.{PublicKeyRow, Sql}
use cscrypto.StorageWidget.Numbers.{IsNumbered, add_key_to_database_lem}

-- The table has a row for this text.
abbrev pub has_key : String → List PublicKeyRow → Bool
has_key key [] = false
has_key key (row ∷ rows) = str_eq row.imported_key key || has_key key rows

yes_or_no : (on : Bool) → str_eq (if on then "yes" else "no") "yes" ≡ on
yes_or_no true = refl
yes_or_no false = refl

and_if : (c k x y : Bool) → (c && (if k then x else y)) ≡ (if k then c && x else c && y)
and_if c true x y = refl
and_if c false x y = refl

-- A row behind the others counts only for a key that they do not have.
is_trusted-append :
    (key : String) (rows : List PublicKeyRow) (row : PublicKeyRow)
    → is_trusted key (columns (rows ++ (row ∷ []))) ≡ (
        if has_key key rows
        then is_trusted key (columns rows)
        else (str_eq row.imported_key key && str_eq row.trusted "yes"))
unfolding is_trusted columns
is_trusted-append key [] row = elim (Bool-cases (str_eq row.imported_key key)) [
  | inl same ↦ rw same refl
  | inr other ↦ rw other refl
]
is_trusted-append key (first ∷ rows) row = elim (Bool-cases (str_eq first.imported_key key)) [
  | inl same ↦ rw same refl
  | inr other ↦ rw other (is_trusted-append key rows row)
]

module _ (sql : Sql) (b : Base58) where
  -- The import of a text that is not empty and decodes to a public key, where the next
  -- identifier is above all others and the counter does not overflow: the table gets one more
  -- row, the last, with the text, the name and the answer of the check box. A request master
  -- then trusts a sender whose key has a row already as it did before, whatever that answer, and
  -- any other sender exactly if its connection is registered, the text is that of the sender's
  -- key and the box is checked.
  pub add_key_to_database-verify_sender_public_key :
      (w : StorageWidget) (pub_bytes : List ℕ)
      → IsNumbered w
      → w.record_id + 1 < 2 ^ 31
      → str_eq w.imported_key "" ≡ false
      → decode_sized b public_key_size w.imported_key ≡ some pub_bytes
      → (w' : StorageWidget) × (add_key_to_database sql b w ≡ ok w')
        × (w'.rows ≡ w.rows ++ (new_row w ∷ []))
        × ((master : RequestMaster)
            → verify_sender_public_key b.encode (database w') master ≡ (
                if has_key (b.encode master.sender_pub_key) w.rows
                then verify_sender_public_key b.encode (database w) master
                else (master.connected
                    && (str_eq w.imported_key (b.encode master.sender_pub_key) && w.trusted_key))))
  unfolding verify_sender_public_key find_sender database new_row
  add_key_to_database-verify_sender_public_key w pub_bytes below h ne decoded = (
    _,
    add_key_to_database_lem sql b w pub_bytes below h ne decoded,
    refl,
    λ master.
        let key = b.encode master.sender_pub_key in
        ap (λ (x : Bool). master.connected && x) (is_trusted-append key w.rows (new_row w))
        ∙ ap
            (λ (x : Bool).
              master.connected
              && (if has_key key w.rows
                  then is_trusted key (columns w.rows)
                  else (str_eq w.imported_key key && x)))
            (yes_or_no w.trusted_key)
        ∙ and_if master.connected (has_key key w.rows) _ _,
  )
