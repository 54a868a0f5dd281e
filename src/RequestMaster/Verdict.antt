-- ===== src/RequestMaster/Verdict.antt =====
-- Which requests `RequestMaster::validate` (qt/src/requestmaster.cpp) finds valid, said without its
-- tests: by the size, the sender, the database and the signature.
use Prim.Native.String.{String}
use text.Mathlib.Text.{◌==◌ as str_eq}
use text.Mathlib.TextEquality.{eq_iff}
use cscrypto.Base.{
  ℕ, ◌-◌, ◌^◌, ◌<◌, ◌≡◌, ◌≢◌, ◌⊎◌, ◌↔◌, ◌∙◌, sym, ap, refl, true, false, not, ◌&&◌, Option, none,
  some, List, [], ◌∷◌, ◌==◌, if◌then◌else◌, if_true, if_false, length, take, drop, arith, ok,
  Bool-cases, inl, inr,
}
use cscrypto.Sodium.Memory.{SodiumMemory}
use cscrypto.Sodium.Sign.{SodiumSign}
use cscrypto.Sodium.Kx.{SodiumKx}
use cscrypto.KeyExchange.{exchange_keys}
use cscrypto.KeyExchange.Agreement.{exchange_keys-agree}
use cscrypto.RequestMaster.{
  RequestType, RequestMaster, Database, Validated, request_size, to_size, is_trusted, find_sender,
  signals, validate,
}
use cscrypto.RequestMaster.Layout.{session_keys}
use cscrypto.RequestMaster.Validate.{is_signed, is_known, accepts, keys_emitted, validate-accepts}

-- The first row with this key says "yes".
abbrev pub IsTrusted : String → List (String × String) → Type 0
IsTrusted key [] = ⊥
IsTrusted key ((imported, trusted) ∷ rows) =
    ((imported ≡ key) × (trusted ≡ "yes")) ⊎ ((imported ≢ key) × IsTrusted key rows)

-- The table can be read, and its first row with this key says "yes".
abbrev pub IsFound : String → Option (List (String × String)) → Type 0
IsFound key none = ⊥
IsFound key (some rows) = IsTrusted key rows

-- A connection that was opened before is still there, or one can be opened.
abbrev pub IsConnected : Database → RequestMaster → Type 0
IsConnected db w =
    ((w.db_connection_established ≡ true) × (w.connected ≡ true))
    ⊎ ((w.db_connection_established ≡ false) × (db.opens ≡ true))

is_trusted_iff :
    (key : String) (rows : List (String × String))
    → (is_trusted key rows ≡ true) ↔ IsTrusted key rows
unfolding is_trusted
is_trusted_iff key [] = (λ e. cc, λ e. absurd e)
is_trusted_iff key ((imported, trusted) ∷ rows) = elim (Bool-cases (str_eq imported key)) [
  | inl same ↦
      let found = (eq_iff imported key).0 same in
      (
        λ e. inl (found, (eq_iff trusted "yes").0 (sym (if_true _ _ _ same) ∙ e)),
        λ h. elim h [
          | inl (e, says) ↦ if_true _ _ _ same ∙ (eq_iff trusted "yes").1 says
          | inr (ne, later) ↦ absurd (ne found)
        ],
      )
  | inr other ↦
      let apart : imported ≢ key = λ e. cc (other, (eq_iff imported key).1 e) in
      (
        λ e. inr (apart, (is_trusted_iff key rows).0 (sym (if_false _ _ _ other) ∙ e)),
        λ h. elim h [
          | inl (e, says) ↦ absurd (apart e)
          | inr (ne, later) ↦ if_false _ _ _ other ∙ (is_trusted_iff key rows).1 later
        ],
      )
]

find_sender_iff :
    (key : String) (rows : Option (List (String × String)))
    → (find_sender key rows ≡ true) ↔ IsFound key rows
unfolding find_sender
find_sender_iff key none = (λ e. cc, λ e. absurd e)
find_sender_iff key (some rows) = is_trusted_iff key rows

-- A query or a reply with the size of one; no request has the size -1.
request_size_iff :
    (type : RequestType) (n : ℕ)
    → n < 2 ^ 64 - 1
    → ((n == to_size (request_size type)) ≡ true) ↔ ((type < 2) × (n ≡ 128))
unfolding request_size to_size
request_size_iff type n small = elim (Bool-cases (not (type == 0) && not (type == 1))) [
  | inl other ↦ (λ e. ground (arith, other, e, small), λ h. ground (arith, other, h.0))
  | inr known ↦
      (λ e. (ground (arith, known), ground (arith, known, e)), λ h. ground (arith, known, h.1))
]

module _ (encode : List ℕ → String) (m : SodiumMemory) (s : SodiumSign) (k : SodiumKx) where
  -- A valid request: the master has keys, the request is a query or a reply of 128 bytes, the
  -- database is there and trusts the sender that its first 32 bytes name, and its last 64 bytes
  -- are the signature of that sender under the type and the 64 bytes before.
  abbrev pub IsValid : Database → RequestType → List ℕ → RequestMaster → Type 0
  IsValid db type request w =
      (w.valid_own_keys ≡ true)
      × (type < 2)
      × (length request ≡ 128)
      × IsConnected db w
      × IsFound (encode (take 32 request)) db.public_keys
      × (s.verify (take 64 (drop 64 request)) (type ∷ take 64 request) (take 32 request) ≡ true)

  is_signed_eq :
      (type : RequestType) (request : List ℕ)
      → length request ≡ 128
      → is_signed encode m s k type request
        ≡ s.verify (take 64 (drop 64 request)) (type ∷ take 64 request) (take 32 request)
  unfolding is_signed
  is_signed_eq type request l = rw (is_signed, l) refl

  is_known_iff :
      (db : Database) (request : List ℕ) (w : RequestMaster)
      → (is_known encode m s k db request w ≡ true)
        ↔ (IsConnected db w × (find_sender (encode (take 32 request)) db.public_keys ≡ true))
  unfolding is_known
  is_known_iff db request w = elim (Bool-cases w.db_connection_established) [
    | inl on ↦ (
      λ e. (inl (on, ground (arith, on, e)), ground (arith, on, e)),
      λ h. elim h.0 [
        | inl (on, there) ↦ ground (arith, on, there, h.1)
        | inr (off, opens) ↦ absurd (cc (on, off))
      ],
    )
    | inr off ↦ (
      λ e. (inr (off, ground (arith, off, e)), ground (arith, off, e)),
      λ h. elim h.0 [
        | inl (on, there) ↦ absurd (cc (on, off))
        | inr (off, opens) ↦ ground (arith, off, opens, h.1)
      ],
    )
  ]

  accepts_iff :
      (db : Database) (type : RequestType) (request : List ℕ) (w : RequestMaster)
      → length request < 2 ^ 64 - 1
      → (accepts encode m s k db type request w ≡ true) ↔ IsValid db type request w
  unfolding accepts
  accepts_iff db type request w small =
      let size = request_size_iff type (length request) small in
      let known = is_known_iff db request w in
      let sender = find_sender_iff (encode (take 32 request)) db.public_keys in
      (
        λ e.
            let (query, l) = size.0 (ground (arith, e)) in
            let (there, found) = known.0 (ground (arith, e)) in
            (
              ground (arith, e),
              query,
              l,
              there,
              sender.0 found,
              sym (is_signed_eq type request l) ∙ ground (arith, e),
            ),
        λ (keys, query, l, there, found, signed).
            let sized = size.1 (query, l) in
            let known' = known.1 (there, sender.1 found) in
            let signed' = is_signed_eq type request l ∙ signed in
            ground (arith, keys, sized, known', signed'),
      )

  -- For a master with a private key of 64 bytes and a request of fewer than 2 ^ 64 - 1 bytes,
  -- `validate` ends without a fault, and with true exactly for a valid request: the master has
  -- keys; the request is a query or a reply and has 128 bytes; the connection that the master
  -- opened before is still registered, or, if it opened none, the database can be opened; the table
  -- can be read, and its first row with the sender's key, which the first 32 bytes are, is marked
  -- as trusted; and the last 64 bytes are that sender's signature of the type and the 64 bytes
  -- before. It emits nothing unless the request is a valid reply, and then the session keys of its
  -- role, server or client, if `crypto_kx` gives some for the bytes 32 to 63 as the key of the
  -- other end, and nothing if it refuses them.
  pub validate_lem :
      (db : Database) (type : RequestType) (request : List ℕ) (w : RequestMaster)
      → length w.own_sk.bytes ≡ 64
      → length request < 2 ^ 64 - 1
      → (epk esk : List ℕ) × (r : Validated) × (exchange_keys s k w.own_sk.bytes ≡ some (epk, esk))
        × (validate encode m s k db type request w ≡ ok r)
        × ((r.valid ≡ true) ↔ IsValid db type request w)
        × (r.emitted ≡ (
            if r.valid && (type == 1)
            then signals encode (
                if w.server_side
                then k.server epk esk (take 32 (drop 32 request))
                else k.client epk esk (take 32 (drop 32 request)))
            else []))
  unfolding keys_emitted session_keys
  validate_lem db type request w l small =
      let (epk, esk, epk', esk', rx, tx, e, e', clients, servers, size, size') =
        exchange_keys-agree s k w.own_sk.bytes w.own_sk.bytes l l in
      let (r, ran, valid, emitted) = validate-accepts encode m s k db type request w epk esk e in
      let iff = accepts_iff db type request w small in
      (
        epk,
        esk,
        r,
        e,
        ran,
        (λ h. iff.0 (sym valid ∙ h), λ h. valid ∙ iff.1 h),
        emitted ∙ ap (λ b. keys_emitted encode m s k b type request w epk esk) (sym valid),
      )
