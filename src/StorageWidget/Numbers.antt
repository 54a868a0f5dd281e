-- ===== src/StorageWidget/Numbers.antt =====
-- The identifiers that the tab gives: each is new, and they stay in the type `int`.
use cscrypto.Base.{
  ℕ, ◌+◌, ◌^◌, ◌≡◌, ◌≤◌, ◌<◌, inl, inr, refl, ◌∙◌, ap, Bool, Bool-cases, true, false, Option-cases,
  some, List, [], ◌∷◌, ◌++◌, arith, ltb, lt→ltb, if_true, Outcome, ok,
}
use text.Mathlib.Text.{◌==◌ as str_eq}
use cscrypto.Base58.{Base58}
use cscrypto.MainCryptoFunctions.{public_key_size}
use cscrypto.SignWidget.{decode_sized}
use cscrypto.StorageWidget.{
  StorageWidget, next_int, next_record_id, remove_key_from_database, new_row, add_key_to_database,
}
use cscrypto.StorageWidget.Rows.{PublicKeyRow, Sql, has_id, ids_below, select_rows}

pub ids_below_mono :
    (m n : ℕ) (rows : List PublicKeyRow) → m ≤ n → ids_below m rows ≡ true → ids_below n rows ≡ true
ids_below_mono m n [] h below = refl
ids_below_mono m n (row ∷ rows) h below = ground (arith, ids_below_mono m n rows h)

pub ids_below-append :
    (n : ℕ) (rows : List PublicKeyRow) (row : PublicKeyRow)
    → ids_below n rows ≡ true
    → row.id < n
    → ids_below n (rows ++ (row ∷ [])) ≡ true
ids_below-append n [] row below h = ground arith
ids_below-append n (first ∷ rows) row below h = ground (arith, ids_below-append n rows row)

pub ids_below-select_rows :
    (n : ℕ) (keep : PublicKeyRow → Bool) (rows : List PublicKeyRow)
    → ids_below n rows ≡ true
    → ids_below n (select_rows keep rows) ≡ true
ids_below-select_rows n keep [] below = refl
ids_below-select_rows n keep (row ∷ rows) below = elim (Bool-cases (keep row)) [
  | inl kept ↦ rw kept (ground (arith, ids_below-select_rows n keep rows))
  | inr gone ↦ rw gone (ground (arith, ids_below-select_rows n keep rows))
]

pub has_id-below :
    (n : ℕ) (rows : List PublicKeyRow) → ids_below n rows ≡ true → has_id n rows ≡ false
has_id-below n [] below = refl
has_id-below n (row ∷ rows) below = ground (arith, has_id-below n rows)

pub next_int_lem : (n : ℕ) → n + 1 < 2 ^ 31 → next_int n ≡ ok (n + 1)
unfolding next_int
next_int_lem n h = if_true (ltb (n + 1) (2 ^ 31)) _ _ (lt→ltb (n + 1) (2 ^ 31) h)

next_record_id_seen :
    (start : ℕ) (row : PublicKeyRow) (rows : List PublicKeyRow)
    → ltb row.id start ≡ true
    → next_record_id start (row ∷ rows) ≡ next_record_id start rows
unfolding next_record_id
next_record_id_seen start row rows old = rw (old, next_record_id) refl

next_record_id_new :
    (start : ℕ) (row : PublicKeyRow) (rows : List PublicKeyRow)
    → ltb row.id start ≡ false
    → row.id + 1 < 2 ^ 31
    → next_record_id start (row ∷ rows) ≡ next_record_id (row.id + 1) rows
unfolding next_record_id
next_record_id_new start row rows new h = rw (new, next_record_id, next_int_lem row.id h) refl

-- The number that the loop finds is above every identifier, and no larger than it must be.
pub next_record_id_lem :
    (limit start : ℕ) (rows : List PublicKeyRow)
    → limit < 2 ^ 31
    → start ≤ limit
    → ids_below limit rows ≡ true
    → (n : ℕ) × (next_record_id start rows ≡ ok n)
      × (start ≤ n)
      × (n ≤ limit)
      × (ids_below n rows ≡ true)
unfolding next_record_id
next_record_id_lem limit start [] l s below = (start, refl, omega arith, s, refl)
next_record_id_lem limit start (row ∷ rows) l s below = elim (Bool-cases (ltb row.id start)) [
  | inl old ↦
      let (n, ran, le, top, all) =
        next_record_id_lem limit start rows l s (ground (arith, below)) in
      (n, next_record_id_seen start row rows old ∙ ran, le, top, ground (arith, old, le, all))
  | inr new ↦
      let id_lt : row.id < limit = ground (arith, below) in
      let (n, ran, le, top, all) =
        next_record_id_lem limit (row.id + 1) rows l (omega (arith, id_lt))
          (ground (arith, below)) in
      (
        n,
        next_record_id_new start row rows new (omega (arith, id_lt, l)) ∙ ran,
        ground (arith, new, le),
        top,
        ground (arith, le, all),
      )
]

-- The table and the next identifier.
abbrev pub IsNumbered : StorageWidget → Type 0
IsNumbered w = ids_below w.record_id w.rows ≡ true

module _ (sql : Sql) (b : Base58) where
  -- An accepted import: the row is the last of the table.
  pub add_key_to_database_lem :
      (w : StorageWidget) (pub_bytes : List ℕ)
      → IsNumbered w
      → w.record_id + 1 < 2 ^ 31
      → str_eq w.imported_key "" ≡ false
      → decode_sized b public_key_size w.imported_key ≡ some pub_bytes
      → add_key_to_database sql b w
        ≡ ok (record w { rows = w.rows ++ (new_row w ∷ []); record_id = w.record_id + 1 })
  unfolding add_key_to_database new_row
  add_key_to_database_lem w pub_bytes below h ne decoded =
      let fresh = sql.insert-new (new_row w) w.rows (has_id-below w.record_id w.rows below) in
      rw (ne, decoded, next_int_lem w.record_id h)
        (ap
          (λ (rows : List PublicKeyRow). ok (record w { rows = rows; record_id = w.record_id + 1 }))
          fresh)

  -- What an event does to the numbers.
  abbrev pub Numbers : StorageWidget → Outcome StorageWidget → Type 0
  Numbers w result =
      (w' : StorageWidget) × (result ≡ ok w') × IsNumbered w' × (w'.record_id ≤ w.record_id + 1)

  pub add_key_to_database-Numbers :
      (w : StorageWidget)
      → IsNumbered w
      → w.record_id + 1 < 2 ^ 31
      → Numbers w (add_key_to_database sql b w)
  unfolding add_key_to_database new_row
  add_key_to_database-Numbers w below h = elim (Bool-cases (str_eq w.imported_key "")) [
    | inl empty ↦ (_, if_true _ _ _ empty, below, omega arith)
    | inr typed ↦ elim (Option-cases (decode_sized b public_key_size w.imported_key)) [
      | inl refused ↦ (
        record w { status = "Invalid public key!" },
        rw (typed, refused) refl,
        below,
        omega arith,
      )
      | inr (pub_bytes, decoded) ↦ (
        _,
        add_key_to_database_lem w pub_bytes below h typed decoded,
        ids_below-append (w.record_id + 1) w.rows (new_row w)
            (ids_below_mono w.record_id (w.record_id + 1) w.rows (omega arith) below) (omega arith),
        omega arith,
      )
    ]
  ]

  pub remove_key_from_database-Numbers :
      (w : StorageWidget) → IsNumbered w → Numbers w (ok (remove_key_from_database sql w))
  unfolding remove_key_from_database
  remove_key_from_database-Numbers w below = elim (Bool-cases (str_eq w.id_to_remove "")) [
    | inl empty ↦ (record w { status = "Empty id field!" }, rw empty refl, below, omega arith)
    | inr typed ↦ elim (Option-cases (sql.delete w.id_to_remove w.rows)) [
      | inl refused ↦ (
        record w { status = "Invalid id. No keys removed." },
        rw (typed, refused) refl,
        below,
        omega arith,
      )
      | inr (rows, done) ↦
          let (keep, kept) = sql.delete_lem w.id_to_remove w.rows rows done in
          (
            record w { rows = rows },
            rw (typed, done) refl,
            rw kept (ids_below-select_rows w.record_id keep w.rows below),
            omega arith,
          )
    ]
  ]
