-- ===== src/RequestMaster.antt =====
-- qt/src/requestmaster.cpp: requests of the key exchange, formed and validated. A request on the
-- wire is a byte for its type and then its body.
pub mod Layout
pub mod Fields
pub mod Validate
pub mod Verdict
pub mod Exchange
use Prim.Native.String.{String}
use text.Mathlib.Text.{◌==◌ as str_eq}
use cscrypto.Base.{
  ℕ, ◌+◌, ◌-◌, ◌%◌, ◌^◌, Bool, true, false, not, ◌&&◌, ◌||◌, Option, none, some, List, [], ◌∷◌,
  ◌==◌, if◌then◌else◌, length, take, drop, replicate, Outcome, ok, ◌>>=◌, copy_to,
}
use cscrypto.Sodium.Memory.{Region, SodiumMemory}
use cscrypto.Sodium.Sign.{SodiumSign}
use cscrypto.Sodium.Kx.{SodiumKx}
use cscrypto.MainCryptoFunctions.{
  public_key_size, signature_size, generate_signature, verify_signature,
}
use cscrypto.KeyExchange.{
  pub_exchange_key_size, get_pub_exchange_key, get_client_session_keys, get_server_session_keys,
}

-- A value of the enumeration, or any other byte that came from the socket.
abbrev pub RequestType : Type 0
RequestType = ℕ

abbrev pub key_exchange_query : RequestType
key_exchange_query = 0

abbrev pub key_exchange_reply : RequestType
key_exchange_reply = 1

abbrev pub data_transfer : RequestType
data_transfer = 2

abbrev pub unknown : RequestType
unknown = 3

-- `none` is -1.
unfoldable pub request_size : RequestType → Option ℕ
request_size type =
    if not (type == key_exchange_query) && not (type == key_exchange_reply)
    then none
    else some (public_key_size + pub_exchange_key_size + signature_size)

-- `size_t(n)`
unfoldable pub to_size : Option ℕ → ℕ
to_size none = 2 ^ 64 - 1
to_size (some n) = n

-- The database of public keys: whether it can be opened, and the columns `ImportedKey` and `Trusted`
-- of its table, which cannot be read if the query fails.
pub record Database : Type 0 where
  pub opens : Bool
  pub public_keys : Option (List (String × String))

-- `connected` says that the connection of that name is registered.
pub record RequestMaster : Type 0 where
  pub sender_pub_key : List ℕ
  pub exchange_pub_key : List ℕ
  pub signature : List ℕ
  pub own_pk : List ℕ
  pub own_sk : Region
  pub server_side : Bool
  pub valid_own_keys : Bool
  pub db_connection_established : Bool
  pub connected : Bool

-- The pairs of keys that `newCommonSecretKeyPair` carries: to send and to receive.
abbrev pub Signals : Type 0
Signals = List (String × String)

pub record Validated : Type 0 where
  pub valid : Bool
  pub master : RequestMaster
  pub emitted : Signals

pub record Formed : Type 0 where
  pub request : List ℕ
  pub master : RequestMaster
  pub emitted : Signals

-- The loop over the rows: the first row of that key decides.
unfoldable pub is_trusted : String → List (String × String) → Bool
is_trusted key [] = false
is_trusted key ((imported, trusted) ∷ rows) =
    let later = is_trusted key rows in if str_eq imported key then str_eq trusted "yes" else later

unfoldable pub find_sender : String → Option (List (String × String)) → Bool
find_sender key none = false
find_sender key (some rows) = is_trusted key rows

unfoldable pub set_own_keys : List ℕ → Region → RequestMaster → RequestMaster
set_own_keys pk sk w = record w { own_pk = pk; own_sk = sk; valid_own_keys = true }

-- `EncodeBase58` is in src/third-party.
module _ (encode : List ℕ → String) where
  unfoldable pub verify_sender_public_key : Database → RequestMaster → Bool
  verify_sender_public_key db w =
      w.connected && find_sender (encode w.sender_pub_key) db.public_keys

  unfoldable pub signals : Option (List ℕ × List ℕ) → Signals
  signals none = []
  signals (some (receive, send)) = (encode send, encode receive) ∷ []

  module _ (m : SodiumMemory) (s : SodiumSign) (k : SodiumKx) where
    unfoldable pub form_common_keys : RequestMaster → Outcome (RequestMaster × Signals)
    form_common_keys w = do
      (keys, sk) ←
          if w.server_side
          then get_server_session_keys m s k w.own_sk w.exchange_pub_key
          else get_client_session_keys m s k w.own_sk w.exchange_pub_key
      ok (record w { own_sk = sk }, signals keys)

    -- `formCommonKeys` is called for a reply only.
    unfoldable pub keys_for_reply : RequestType → RequestMaster → Outcome (RequestMaster × Signals)
    keys_for_reply type w = if type == key_exchange_reply then form_common_keys w else ok (w, [])

    -- The rest of `form`, once the type and the own public key stand in `result`.
    unfoldable pub form_signed :
        RequestType → List ℕ → RequestMaster → Option (List ℕ) → Outcome Formed
    form_signed type result w none = ok (record { request = []; master = w; emitted = [] })
    form_signed type result w (some own_exchange_key) = do
      result' ← copy_to result (1 + public_key_size) own_exchange_key
      (signature, sk) ←
          generate_signature m s w.own_sk (take (length result' - signature_size) result')
      result'' ← copy_to result' (1 + public_key_size + pub_exchange_key_size) signature
      (w', emitted) ← keys_for_reply type (record w { own_sk = sk })
      ok (record { request = result''; master = w'; emitted = emitted })

    unfoldable pub form : RequestType → RequestMaster → Outcome Formed
    form type w =
        if not w.valid_own_keys then ok (record { request = []; master = w; emitted = [] }) else (do
          let zeros = replicate ((to_size (request_size type) + 1) % 2 ^ 64) 0
          result ← copy_to zeros 0 (type ∷ [])
          result' ← copy_to result 1 w.own_pk
          (own_exchange_key, sk) ← get_pub_exchange_key m s k w.own_sk
          form_signed type result' (record w { own_sk = sk }) own_exchange_key)

    unfoldable pub refuse : RequestMaster → Outcome Validated
    refuse w = ok (record { valid = false; master = w; emitted = [] })

    -- The rest of `validate`, once the sender is found to be trusted.
    unfoldable pub validate_signed : RequestType → List ℕ → RequestMaster → Outcome Validated
    validate_signed type request w =
        let w' = record w {
          connected = not w.server_side && w.connected;
          exchange_pub_key = take pub_exchange_key_size (drop public_key_size request);
          signature = take signature_size (drop (public_key_size + pub_exchange_key_size) request);
        } in
        if not (
          verify_signature s w'.signature w'.sender_pub_key
            (type ∷ take (length request - signature_size) request))
        then refuse w'
        else (do
          (w'', emitted) ← keys_for_reply type w'
          ok (record { valid = true; master = w''; emitted = emitted }))

    unfoldable pub validate : Database → RequestType → List ℕ → RequestMaster → Outcome Validated
    validate db type request w =
        if not w.valid_own_keys
        then refuse w
        else (if not (length request == to_size (request_size type))
            then refuse w
            else (let w' = record w { sender_pub_key = take public_key_size request } in
                if not w.db_connection_established && not db.opens
                then refuse w'
                else (let w'' = record w' {
                  db_connection_established = true;
                  connected = not w.db_connection_established || w.connected;
                } in
                    if not (verify_sender_public_key db w'')
                    then refuse w''
                    else validate_signed type request w'')))
