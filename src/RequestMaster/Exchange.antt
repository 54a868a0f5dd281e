-- ===== src/RequestMaster/Exchange.antt =====
-- A key exchange between a client and a server that know each other (qt/src/requestmaster.cpp).
use Prim.Native.String.{String}
use cscrypto.Base.{
  ℕ, ◌≡◌, ◌∙◌, ap, refl, true, false, not, ◌||◌, some, List, [], ◌∷◌, length, take, drop, ok,
}
use cscrypto.Sodium.Memory.{SodiumMemory}
use cscrypto.Sodium.Sign.{SodiumSign}
use cscrypto.Sodium.Kx.{SodiumKx}
use cscrypto.KeyExchange.{exchange_keys}
use cscrypto.KeyExchange.Agreement.{exchange_keys-agree}
use cscrypto.RequestMaster.{
  RequestType, RequestMaster, Database, Validated, request_size, to_size, find_sender, signals,
  keys_for_reply, form, validate,
}
use cscrypto.RequestMaster.Layout.{
  locked, unsigned, body, form_lem, session_keys, form_common_keys_lem,
}
use cscrypto.RequestMaster.Fields.{
  body-length, sender-body, exchange_key-body, signature-body, signed-body,
}
use cscrypto.RequestMaster.Validate.{
  is_signed, is_known, accepts, keys_emitted, with_request, validate-accepts, accept_query,
}

module _ (encode : List ℕ → String) (m : SodiumMemory) (s : SodiumSign) (k : SodiumKx) where
  -- What a master signs is found to be signed.
  is_signed-body :
      (type : RequestType) (pk epk sk : List ℕ)
      → length epk ≡ 32
      → length sk ≡ 64
      → pk ≡ s.sk_to_pk sk
      → is_signed encode m s k type (body encode m s k type pk epk sk) ≡ true
  unfolding is_signed
  is_signed-body type pk epk sk l' n e =
      let l : length pk ≡ 32 = rw e (s.sk_to_pk_length sk) in
      let sig = s.sign (unsigned type pk epk) sk in
      let g = s.sign_length (unsigned type pk epk) sk in
      rw
        (
          is_signed,
          signature-body pk epk sig l l' g,
          signed-body pk epk sig l l' g,
          sender-body pk epk sig l l' g,
          e,
        )
        (s.verify-sign (unsigned type (s.sk_to_pk sk) epk) sk n)

  -- A master with a pair of keys that has not validated yet.
  abbrev pub IsFresh : RequestMaster → Type 0
  IsFresh w =
      (w.valid_own_keys ≡ true)
      × (length w.own_sk.bytes ≡ 64)
      × (w.own_pk ≡ s.sk_to_pk w.own_sk.bytes)
      × (w.db_connection_established ≡ false)

  -- The database of one end trusts the public key of the other.
  abbrev pub Trusts : Database → RequestMaster → Type 0
  Trusts db w = (db.opens ≡ true) × (find_sender (encode w.own_pk) db.public_keys ≡ true)

  own_pk-length : (w : RequestMaster) → IsFresh w → length w.own_pk ≡ 32
  own_pk-length w (v, n, e, d) = rw e (s.sk_to_pk_length w.own_sk.bytes)

  -- `form` of a query.
  form_query :
      (w : RequestMaster) (epk esk : List ℕ)
      → IsFresh w
      → exchange_keys s k w.own_sk.bytes ≡ some (epk, esk)
      → length epk ≡ 32
      → form encode m s k 0 w
        ≡ ok (record {
          request = 0 ∷ body encode m s k 0 w.own_pk epk w.own_sk.bytes;
          master = locked w;
          emitted = [];
        })
  unfolding keys_for_reply request_size
  form_query w epk esk f e l' = form_lem encode m s k 0 w epk esk refl f.0 (own_pk-length w f) e l'

  -- `form` of a reply, which emits the keys.
  form_reply :
      (w : RequestMaster) (epk esk : List ℕ)
      → w.valid_own_keys ≡ true
      → length w.own_pk ≡ 32
      → exchange_keys s k w.own_sk.bytes ≡ some (epk, esk)
      → length epk ≡ 32
      → form encode m s k 1 w
        ≡ ok (record {
          request = 1 ∷ body encode m s k 1 w.own_pk epk w.own_sk.bytes;
          master = locked w;
          emitted = signals encode (session_keys encode m s k w epk esk);
        })
  unfolding keys_for_reply request_size session_keys
  form_reply w epk esk v l e l' =
      form_lem encode m s k 1 w epk esk refl v l e l'
      ∙ rw (form_common_keys_lem encode m s k (locked w) epk esk e) refl

  accepts-body :
      (type : RequestType) (db : Database) (w sender : RequestMaster) (epk : List ℕ)
      → request_size type ≡ some 128
      → IsFresh w
      → IsFresh sender
      → Trusts db sender
      → length epk ≡ 32
      → accepts encode m s k db type
          (body encode m s k type sender.own_pk epk sender.own_sk.bytes)
          w
        ≡ true
  unfolding accepts is_known to_size
  accepts-body type db w sender epk t f f' (opens, trusted) l' =
      let l = own_pk-length sender f' in
      let g = s.sign_length (unsigned type sender.own_pk epk) sender.own_sk.bytes in
      let sig = s.sign (unsigned type sender.own_pk epk) sender.own_sk.bytes in
      rw
        (
          accepts,
          is_known,
          t,
          f.0,
          f.3,
          opens,
          body-length sender.own_pk epk sig l l' g,
          sender-body sender.own_pk epk sig l l' g,
          trusted,
          is_signed-body type sender.own_pk epk sender.own_sk.bytes l' f'.1 f'.2,
        )
        refl

  -- The keys that the client and the server emit.
  server_keys :
      (w : RequestMaster) (epk esk epk' esk' rx tx : List ℕ)
      → w.server_side ≡ true
      → w.exchange_pub_key ≡ epk
      → k.server epk' esk' epk ≡ some (tx, rx)
      → signals encode (session_keys encode m s k w epk' esk') ≡ (encode rx, encode tx) ∷ []
  unfolding session_keys signals
  server_keys w epk esk epk' esk' rx tx side e e' = rw (session_keys, side, e, e') refl

  client_keys :
      (w : RequestMaster) (request epk esk epk' rx tx : List ℕ)
      → w.server_side ≡ false
      → take 32 (drop 32 request) ≡ epk'
      → k.client epk esk epk' ≡ some (rx, tx)
      → keys_emitted encode m s k true 1 request w epk esk ≡ (encode tx, encode rx) ∷ []
  unfolding keys_emitted session_keys signals
  client_keys w request epk esk epk' rx tx side e e' =
      rw (keys_emitted, session_keys, side, e, e') refl

  -- A key exchange between two fresh masters with pairs of keys, a client and a server, that have
  -- each other's public key as trusted in their databases. The query of the client is valid for the
  -- server, the reply of the server is valid for the client, and each end emits one pair of keys:
  -- what one sends with, the other receives with. Nothing faults, and both bodies have 128 bytes.
  pub validate-form :
      (client server : RequestMaster) (db db' : Database)
      → IsFresh client
      → IsFresh server
      → client.server_side ≡ false
      → server.server_side ≡ true
      → Trusts db server
      → Trusts db' client
      → (query reply : List ℕ) × (asked accepted served : RequestMaster) × (done : Validated)
        × (send receive : String) × (form encode m s k 0 client
            ≡ ok (record { request = 0 ∷ query; master = asked; emitted = [] }))
        × (validate encode m s k db' 0 query server
            ≡ ok (record { valid = true; master = accepted; emitted = [] }))
        × (form encode m s k 1 accepted
            ≡ ok (record { request = 1 ∷ reply; master = served; emitted = (send, receive) ∷ [] }))
        × (validate encode m s k db 1 reply asked ≡ ok done)
        × (done.valid ≡ true)
        × (done.emitted ≡ (receive, send) ∷ [])
        × (length query ≡ 128)
        × (length reply ≡ 128)
  unfolding request_size
  validate-form client server db db' f f' side side' trust trust' =
      let (epk, esk, epk', esk', rx, tx, e, e', clients, servers, size, size') =
        exchange_keys-agree s k client.own_sk.bytes server.own_sk.bytes f.1 f'.1 in
      let query = body encode m s k 0 client.own_pk epk client.own_sk.bytes in
      let reply = body encode m s k 1 server.own_pk epk' server.own_sk.bytes in
      let sig = s.sign (unsigned 0 client.own_pk epk) client.own_sk.bytes in
      let sig' = s.sign (unsigned 1 server.own_pk epk') server.own_sk.bytes in
      let g = s.sign_length (unsigned 0 client.own_pk epk) client.own_sk.bytes in
      let g' = s.sign_length (unsigned 1 server.own_pk epk') server.own_sk.bytes in
      let l = own_pk-length client f in
      let l' = own_pk-length server f' in
      let accepted = with_request encode m s k query (record server {
        db_connection_established = true;
        connected = not server.db_connection_established || server.connected;
      }) in
      let (done, validated, valid, emitted) =
        validate-accepts encode m s k db 1 reply (locked client) epk esk e in
      let sound = accepts-body 1 db (locked client) server epk' one_size f f' trust size' in
      (
        query,
        reply,
        locked client,
        accepted,
        locked accepted,
        done,
        encode rx,
        encode tx,
        form_query client epk esk f e size,
        accept_query encode m s k db' query server f'.0 (body-length client.own_pk epk sig l size g)
            f'.3 trust'.0 (rw (sender-body client.own_pk epk sig l size g) trust'.1)
            (is_signed-body 0 client.own_pk epk client.own_sk.bytes size f.1 f.2),
        form_reply accepted epk' esk' f'.0 l' e' size'
            ∙ ap
                (λ keys.
                  ok (record { request = 1 ∷ reply; master = locked accepted; emitted = keys }))
                (server_keys accepted epk esk epk' esk' rx tx side'
                  (exchange_key-body client.own_pk epk sig l size g) servers),
        validated,
        valid ∙ sound,
        emitted
            ∙ ap (λ b. keys_emitted encode m s k b 1 reply (locked client) epk esk) sound
            ∙ client_keys (locked client) reply epk esk epk' rx tx side
                (exchange_key-body server.own_pk epk' sig' l' size' g') clients,
        body-length client.own_pk epk sig l size g,
        body-length server.own_pk epk' sig' l' size' g',
      )
    where
      one_size : request_size 1 ≡ some 128
      one_size = refl
