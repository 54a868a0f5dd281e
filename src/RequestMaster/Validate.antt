-- ===== src/RequestMaster/Validate.antt =====
-- What `RequestMaster::validate` accepts, and which keys it emits (qt/src/requestmaster.cpp).
use Prim.Native.String.{String}
use cscrypto.Base.{
  ℕ, ◌-◌, ◌≡◌, ◌∙◌, sym, ap, refl, Bool, true, false, not, ◌&&◌, ◌||◌, some, List, [], ◌∷◌, ◌==◌,
  if◌then◌else◌, length, take, drop, arith, ok, Bool-cases, inl, inr,
}
use cscrypto.Sodium.Memory.{SodiumMemory}
use cscrypto.Sodium.Sign.{SodiumSign}
use cscrypto.Sodium.Kx.{SodiumKx}
use cscrypto.MainCryptoFunctions.{verify_signature}
use cscrypto.KeyExchange.{exchange_keys}
use cscrypto.RequestMaster.{
  RequestType, RequestMaster, Database, Validated, Signals, request_size, to_size, find_sender,
  verify_sender_public_key, signals, keys_for_reply, refuse, validate_signed, validate,
}
use cscrypto.RequestMaster.Layout.{locked, session_keys, form_common_keys_lem}

module _ (encode : List ℕ → String) (m : SodiumMemory) (s : SodiumSign) (k : SodiumKx) where
  -- The signature at the end of a request fits the sender that it names.
  unfoldable pub is_signed : RequestType → List ℕ → Bool
  is_signed type request =
      s.verify (take 64 (drop 64 request)) (type ∷ take (length request - 64) request)
        (take 32 request)

  unfoldable pub is_known : Database → List ℕ → RequestMaster → Bool
  is_known db request w =
      (w.db_connection_established || db.opens)
      && (not w.db_connection_established || w.connected)
      && find_sender (encode (take 32 request)) db.public_keys

  -- What makes a request valid.
  unfoldable pub accepts : Database → RequestType → List ℕ → RequestMaster → Bool
  accepts db type request w =
      w.valid_own_keys
      && (length request == to_size (request_size type))
      && is_known db request w
      && is_signed type request

  -- The keys that a valid request makes the master emit.
  unfoldable pub keys_emitted :
      Bool → RequestType → List ℕ → RequestMaster → (epk esk : List ℕ) → Signals
  keys_emitted accepted type request w epk esk =
      if accepted && (type == 1)
      then signals encode (
          session_keys encode m s k (record w { exchange_pub_key = take 32 (drop 32 request) }) epk
            esk)
      else []

  keys_for_reply_lem :
      (type : RequestType) (w : RequestMaster) (epk esk : List ℕ)
      → exchange_keys s k w.own_sk.bytes ≡ some (epk, esk)
      → (w' : RequestMaster) × (keys_for_reply encode m s k type w
          ≡ ok (w', if type == 1 then signals encode (session_keys encode m s k w epk esk) else []))
  unfolding keys_for_reply
  keys_for_reply_lem type w epk esk e = elim (Bool-cases (type == 1)) [
    | inl reply ↦
        (locked w, rw (keys_for_reply, reply) (form_common_keys_lem encode m s k w epk esk e))
    | inr other ↦ (w, rw (keys_for_reply, other) refl)
  ]

  -- The master as `validate_signed` leaves it before it forms keys.
  abbrev pub with_request : List ℕ → RequestMaster → RequestMaster
  with_request request w = record w {
    sender_pub_key = take 32 request;
    connected = not w.server_side && w.connected;
    exchange_pub_key = take 32 (drop 32 request);
    signature = take 64 (drop 64 request);
  }

  validate_signed_lem :
      (type : RequestType) (request : List ℕ) (w : RequestMaster) (epk esk : List ℕ)
      → exchange_keys s k w.own_sk.bytes ≡ some (epk, esk)
      → (r : Validated) × (validate_signed encode m s k type request
            (record w { sender_pub_key = take 32 request })
          ≡ ok r)
        × (r.valid ≡ is_signed type request)
        × (r.emitted ≡ keys_emitted (is_signed type request) type request w epk esk)
  unfolding validate_signed verify_signature keys_emitted is_signed refuse session_keys
  validate_signed_lem type request w epk esk e = elim (Bool-cases (is_signed type request)) [
    | inl signed ↦
        let (w', formed) = keys_for_reply_lem type (with_request request w) epk esk e in
        (
          record {
            valid = true;
            master = w';
            emitted =
                if type == 1
                then signals encode (session_keys encode m s k (with_request request w) epk esk)
                else [];
          },
          rw (validate_signed, signed, formed) refl,
          sym signed,
          rw signed refl,
        )
    | inr unsigned ↦ (
      record { valid = false; master = with_request request w; emitted = [] },
      rw (validate_signed, unsigned) refl,
      sym unsigned,
      rw unsigned refl,
    )
  ]

  -- How a refused request fits `accepts`.
  refused :
      (db : Database) (type : RequestType) (request : List ℕ) (w w' : RequestMaster)
      (epk esk : List ℕ)
      → validate encode m s k db type request w ≡ refuse encode m s k w'
      → accepts db type request w ≡ false
      → (r : Validated) × (validate encode m s k db type request w ≡ ok r)
        × (r.valid ≡ accepts db type request w)
        × (r.emitted ≡ keys_emitted (accepts db type request w) type request w epk esk)
  unfolding refuse keys_emitted
  refused db type request w w' epk esk h denied =
      (record { valid = false; master = w'; emitted = [] }, h, sym denied, rw denied refl)

  trusted_sender :
      (db : Database) (type : RequestType) (request : List ℕ) (w : RequestMaster)
      → w.valid_own_keys ≡ true
      → (length request == to_size (request_size type)) ≡ true
      → (not w.db_connection_established && not db.opens) ≡ false
      → ((not w.db_connection_established || w.connected)
          && find_sender (encode (take 32 request)) db.public_keys)
        ≡ true
      → validate encode m s k db type request w
        ≡ validate_signed encode m s k type request (record w {
          sender_pub_key = take 32 request;
          db_connection_established = true;
          connected = not w.db_connection_established || w.connected;
        })
  unfolding validate verify_sender_public_key
  trusted_sender db type request w v l o c = simp (validate, v, l, o, c) refl

  -- The result and the signals in terms of `accepts`, where the exchange keys are known.
  pub validate-accepts :
      (db : Database) (type : RequestType) (request : List ℕ) (w : RequestMaster) (epk esk : List ℕ)
      → exchange_keys s k w.own_sk.bytes ≡ some (epk, esk)
      → (r : Validated) × (validate encode m s k db type request w ≡ ok r)
        × (r.valid ≡ accepts db type request w)
        × (r.emitted ≡ keys_emitted (accepts db type request w) type request w epk esk)
  unfolding validate accepts is_known verify_sender_public_key keys_emitted session_keys
  validate-accepts db type request w epk esk e =
      go w.valid_own_keys refl (length request == to_size (request_size type)) refl
        (not w.db_connection_established && not db.opens) refl
        ((not w.db_connection_established || w.connected)
          && find_sender (encode (take 32 request)) db.public_keys)
        refl
    where
      go :
          (v : Bool)
          → w.valid_own_keys ≡ v
          → (l : Bool) → (length request == to_size (request_size type)) ≡ l
          → (o : Bool) → (not w.db_connection_established && not db.opens) ≡ o
          → (c : Bool)
          → ((not w.db_connection_established || w.connected)
              && find_sender (encode (take 32 request)) db.public_keys)
            ≡ c
          → (r : Validated) × (validate encode m s k db type request w ≡ ok r)
            × (r.valid ≡ accepts db type request w)
            × (r.emitted ≡ keys_emitted (accepts db type request w) type request w epk esk)
      go false v l lh o oh c ch =
          refused db type request w w epk esk (simp (validate, v) refl) (ground (arith, v))
      go true v false l o oh c ch =
          refused db type request w w epk esk (simp (validate, v, l) refl) (ground (arith, v, l))
      go true v true l true o c ch =
          refused db type request w (record w { sender_pub_key = take 32 request }) epk esk
            (simp (validate, v, l, o) refl) (ground (arith, v, l, o))
      go true v true l false o false c =
          refused db type request w
            (record w {
              sender_pub_key = take 32 request;
              db_connection_established = true;
              connected = not w.db_connection_established || w.connected;
            })
            epk esk (simp (validate, v, l, o, c) refl) (ground (arith, v, l, o, c))
      go true v true l false o true c =
          let w' = record w {
            db_connection_established = true;
            connected = not w.db_connection_established || w.connected;
          } in
          let (r, signed, valid, emitted) = validate_signed_lem type request w' epk esk e in
          let known : accepts db type request w ≡ is_signed type request =
            ground (arith, v, l, o, c) in
          (
            r,
            trusted_sender db type request w v l o c ∙ signed,
            valid ∙ sym known,
            emitted ∙ ap (λ b. keys_emitted b type request w epk esk) (sym known),
          )

  -- A query that is accepted is kept for the reply.
  pub accept_query :
      (db : Database) (request : List ℕ) (w : RequestMaster)
      → w.valid_own_keys ≡ true
      → length request ≡ 128
      → w.db_connection_established ≡ false
      → db.opens ≡ true
      → find_sender (encode (take 32 request)) db.public_keys ≡ true
      → is_signed 0 request ≡ true
      → validate encode m s k db 0 request w
        ≡ ok (record {
          valid = true;
          master = with_request request (record w {
            db_connection_established = true;
            connected = not w.db_connection_established || w.connected;
          });
          emitted = [];
        })
  unfolding validate_signed verify_signature is_signed keys_for_reply request_size to_size
  accept_query db request w v l n o c g =
      trusted_sender db 0 request w v (ground (arith, l)) (ground (arith, n, o))
        (ground (arith, n, c))
      ∙ rw (validate_signed, g) refl
