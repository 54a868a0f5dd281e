-- ===== src/Session.antt =====
-- A session of the key exchange over a socket: qt/src/client.cpp against
-- qt/src/incomingconnectionhandler.cpp.
use Prim.Native.String.{String}
use cscrypto.Base.{ℕ, ◌≡◌, refl, ◌∙◌, true, false, List, [], ◌∷◌, flatten, arith, ok}
use cscrypto.Sodium.Memory.{SodiumMemory}
use cscrypto.Sodium.Sign.{SodiumSign}
use cscrypto.Sodium.Kx.{SodiumKx}
use cscrypto.RequestMaster.{RequestType, RequestMaster, Database, request_size}
use cscrypto.RequestMaster.Exchange.{IsFresh, Trusts, validate-form}
use cscrypto.Client.{Client, on_connected, arrive}
use cscrypto.Client.Arrival.{waiting, after, handle_body, arrive_lem}
use cscrypto.IncomingConnectionHandler.{Handled, run}
use cscrypto.IncomingConnectionHandler.Answer.{answer, answer_validated, run_lem}

-- A client with an empty socket, whatever type the last reply had.
abbrev pub new_client : RequestType → RequestMaster → Client
new_client type w = record {
  server_req_type = type;
  request_master = w;
  available = [];
  written = [];
  errors = 0;
  emitted = [];
}

module _ (encode : List ℕ → String) (m : SodiumMemory) (s : SodiumSign) (k : SodiumKx) where
  -- A client with an empty socket connects to a handler. Both have fresh masters with pairs of keys and trust each
  -- other's public key, and the socket cuts what it carries into any pieces. The handler answers
  -- the query of the client without an error, the client takes the answer without an error, and each
  -- emits one pair of keys: what one sends with, the other receives with. Nothing faults.
  pub arrive-run :
      (type : RequestType) (client server : RequestMaster) (db db' : Database)
      (cut cut' : List ℕ → List (List ℕ))
      → ((bytes : List ℕ) → flatten (cut bytes) ≡ bytes)
      → ((bytes : List ℕ) → flatten (cut' bytes) ≡ bytes)
      → IsFresh encode m s k client
      → IsFresh encode m s k server
      → client.server_side ≡ false
      → server.server_side ≡ true
      → Trusts encode m s k db server
      → Trusts encode m s k db' client
      → (connected final : Client) × (handled : Handled) × (send receive : String) × (on_connected
            encode m s k
            (new_client type client)
          ≡ ok connected)
        × (run encode m s k true db' (cut connected.written) server ≡ ok handled)
        × (arrive encode m s k db connected (cut' handled.written) ≡ ok final)
        × (handled.errors ≡ [])
        × (handled.emitted ≡ (send, receive) ∷ [])
        × (final.errors ≡ 0)
        × (final.emitted ≡ (receive, send) ∷ [])
  unfolding on_connected answer answer_validated handle_body after waiting request_size
  arrive-run type client server db db' cut cut' whole whole' f f' side side' trust trust' =
      let (
        query, reply, asked, accepted, served, done, send, receive, formed, valid, replied,
        validated, is_valid, emitted, size, size',
      ) =
        validate-form encode m s k client server db db' f f' side side' trust trust' in
      let connected : Client = record (new_client 3 asked) { written = 0 ∷ query } in
      let handled : Handled = record {
        request_master = served;
        written = 1 ∷ reply;
        errors = [];
        emitted = (send, receive) ∷ [];
      } in
      (
        connected,
        after connected 1 done,
        handled,
        send,
        receive,
        rw formed refl,
        run_lem encode m s k db' 0 128 refl (cut (0 ∷ query)) query server size (whole (0 ∷ query))
            ∙ rw (answer, valid, answer_validated, replied) refl,
        arrive_lem encode m s k db 1 128 refl refl (omega arith) connected (cut' (1 ∷ reply)) reply
              size' (whole' (1 ∷ reply))
            ∙ rw (handle_body, validated) refl,
        refl,
        refl,
        rw is_valid refl,
        emitted,
      )
