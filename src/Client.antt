-- ===== src/Client.antt =====
-- qt/src/client.cpp: the end of the key exchange that asks. What the server sends arrives in pieces,
-- and `onReadyRead` runs after each.
pub mod Arrival
use Prim.Native.String.{String}
use cscrypto.Base.{
  ℕ, suc, Bool, true, false, Option, none, some, List, [], ◌∷◌, ◌++◌, ltb, ◌==◌, if◌then◌else◌,
  length, take, drop, Outcome, ok, fault, ◌>>=◌,
}
use cscrypto.Sodium.Memory.{SodiumMemory}
use cscrypto.Sodium.Sign.{SodiumSign}
use cscrypto.Sodium.Kx.{SodiumKx}
use cscrypto.RequestMaster.{
  RequestType, RequestMaster, Database, Validated, Signals, request_size, key_exchange_query,
  unknown, form, validate,
}

-- The client with what its socket holds: `available` is read from, `written` is sent. `errors`
-- counts the signals `error`, `emitted` holds the signals `newCommonSecretKeyPair`.
pub record Client : Type 0 where
  pub server_req_type : RequestType
  pub request_master : RequestMaster
  pub available : List ℕ
  pub written : List ℕ
  pub errors : ℕ
  pub emitted : Signals

module _ (encode : List ℕ → String) (m : SodiumMemory) (s : SodiumSign) (k : SodiumKx) where
  unfoldable pub on_connected : Client → Outcome Client
  on_connected c = do
    formed ← form encode m s k key_exchange_query c.request_master
    ok (record c {
      server_req_type = unknown;
      request_master = formed.master;
      written = c.written ++ formed.request;
      emitted = c.emitted ++ formed.emitted;
    })

  -- The second half of `onReadyRead`, once the type is known. A size of -1 makes `resize` throw.
  unfoldable pub read_body : Database → Client → Option ℕ → Outcome Client
  read_body db c none = fault
  read_body db c (some n) = if ltb (length c.available) n then ok c else (do
    r ← validate encode m s k db c.server_req_type (take n c.available) c.request_master
    ok (record c {
      request_master = r.master;
      available = drop n c.available;
      errors = if r.valid then c.errors else suc c.errors;
      emitted = c.emitted ++ r.emitted;
    }))

  -- The first half: `available` is matched on. `abort` drops what is left in the socket.
  unfoldable pub read_type : Database → Client → List ℕ → Outcome Client
  read_type db c [] = ok c
  read_type db c (type ∷ rest) =
      if type == unknown
      then ok (record c { server_req_type = type; available = []; errors = suc c.errors })
      else read_body db (record c { server_req_type = type; available = rest }) (request_size type)

  unfoldable pub on_ready_read : Database → Client → Outcome Client
  on_ready_read db c =
      if c.server_req_type == unknown
      then read_type db c c.available
      else read_body db c (request_size c.server_req_type)

  -- Pieces arrive, one after the other.
  unfoldable pub arrive : Database → Client → List (List ℕ) → Outcome Client
  arrive db c [] = ok c
  arrive db c (piece ∷ pieces) = do
    c' ← on_ready_read db (record c { available = c.available ++ piece })
    arrive db c' pieces
