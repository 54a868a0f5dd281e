-- ===== src/IncomingConnectionHandler.antt =====
-- qt/src/incomingconnectionhandler.cpp: the end of the key exchange that answers, one thread for a
-- connection. A socket is the pieces that are still to arrive before a time-out.
pub mod Answer
use Prim.Native.String.{String}
use cscrypto.Base.{
  ℕ, Bool, true, false, not, Option, none, some, List, [], ◌∷◌, ◌++◌, ltb, ◌==◌, if◌then◌else◌,
  length, Outcome, ok, fault, ◌>>=◌,
}
use cscrypto.Sodium.Memory.{SodiumMemory}
use cscrypto.Sodium.Sign.{SodiumSign}
use cscrypto.Sodium.Kx.{SodiumKx}
use cscrypto.RequestMaster.{
  RequestType, RequestMaster, Database, Signals, Validated, request_size, key_exchange_reply, form,
  validate,
}

-- The signals `error`: the text of the socket, and the two texts of the handler.
pub data HandlerError : Type 0 where
  socket_error invalid_size invalid_request : HandlerError

-- `bytesAvailable() < n`, where `none` is -1.
unfoldable pub lacks : List ℕ → Option ℕ → Bool
lacks available none = false
lacks available (some n) = ltb (length available) n

-- `n == bytesAvailable()`
unfoldable pub fits : List ℕ → Option ℕ → Bool
fits available none = false
fits available (some n) = n == length available

-- The `while` loops of `readRequest`: what is available in the end, and what is to arrive later;
-- `none` after a time-out.
unfoldable pub wait_for :
    Option ℕ → (available : List ℕ) → (pieces : List (List ℕ)) → Option (List ℕ × List (List ℕ))
wait_for n available [] = if lacks available n then none else some (available, [])
wait_for n available (piece ∷ pieces) =
    let more = wait_for n (available ++ piece) pieces in
    if lacks available n then more else some (available, piece ∷ pieces)

pub record Reading : Type 0 where
  pub accepted : Bool
  pub request_master : RequestMaster
  pub errors : List HandlerError
  pub emitted : Signals

pub record Handled : Type 0 where
  pub request_master : RequestMaster
  pub written : List ℕ
  pub errors : List HandlerError
  pub emitted : Signals

-- What `readRequest` makes of the result of `validate`.
unfoldable pub checked : Validated → Reading
checked r = record {
  accepted = r.valid;
  request_master = r.master;
  errors = if r.valid then [] else invalid_request ∷ [];
  emitted = r.emitted;
}

module _ (encode : List ℕ → String) (m : SodiumMemory) (s : SodiumSign) (k : SodiumKx) where
  unfoldable pub fail_reading : RequestMaster → HandlerError → Outcome Reading
  fail_reading w e =
      ok (record { accepted = false; request_master = w; errors = e ∷ []; emitted = [] })

  -- The end of `readRequest`, with all bytes that are available.
  unfoldable pub check_request : Database → RequestType → List ℕ → RequestMaster → Outcome Reading
  check_request db type request w =
      if not (fits request (request_size type))
      then fail_reading w invalid_size
      else (do r ← validate encode m s k db type request w; ok (checked r))

  -- `readRequest` once a byte is there.
  unfoldable pub read_rest : Database → List ℕ → List (List ℕ) → RequestMaster → Outcome Reading
  read_rest db [] pieces w = fault
  read_rest db (type ∷ available) pieces w = elim (wait_for (request_size type) available pieces) [
    | none ↦ fail_reading w socket_error
    | some (request, later) ↦ check_request db type request w
  ]

  unfoldable pub read_request : Database → List (List ℕ) → RequestMaster → Outcome Reading
  read_request db pieces w = elim (wait_for (some 1) [] pieces) [
    | none ↦ fail_reading w socket_error
    | some (available, later) ↦ read_rest db available later w
  ]

  -- `sendReply`, if the request was accepted.
  unfoldable pub send_reply : Reading → Outcome Handled
  send_reply r =
      if r.accepted
      then (do
        reply ← form encode m s k key_exchange_reply r.request_master
        ok (record {
          request_master = reply.master;
          written = reply.request;
          errors = r.errors;
          emitted = r.emitted ++ reply.emitted;
        }))
      else ok (record {
        request_master = r.request_master;
        written = [];
        errors = r.errors;
        emitted = r.emitted;
      })

  -- `run`; `opened` says whether the socket takes the descriptor.
  unfoldable pub run : (opened : Bool) → Database → List (List ℕ) → RequestMaster → Outcome Handled
  run opened db pieces w =
      if opened
      then (do r ← read_request db pieces w; send_reply r)
      else ok
          (record { request_master = w; written = []; errors = socket_error ∷ []; emitted = [] })
