-- ===== src/Tests/Sessions.antt =====
-- Both ends of a socket that cuts what it carries behind the fifth byte.
use Prim.Native.String.{String}
use mathlib.Core.List.{append-nil}
use cscrypto.Base.{
  ℕ, ◌≡◌, refl, ap, ◌∙◌, true, List, [], ◌∷◌, ◌++◌, replicate, flatten, take, drop,
  take-append_drop, arith, ok, fault,
}
use cscrypto.Sodium.Memory.{simple_memory}
use cscrypto.RequestMaster.{request_size}
use cscrypto.Client.{Client, on_connected, arrive}
use cscrypto.Client.Arrival.{waiting, handle_body, arrive_lem, arrive-fault}
use cscrypto.IncomingConnectionHandler.{Handled, run}
use cscrypto.IncomingConnectionHandler.Answer.{answer, run_lem}
use cscrypto.Session.{new_client, arrive-run}
use cscrypto.Tests.Exchanges.{
  simple_sign, simple_kx, client_master, server_master, known_keys, key_name, client-IsFresh,
  server-IsFresh, client-Trusts, server-Trusts,
}

abbrev cut_at_five : List ℕ → List (List ℕ)
cut_at_five bytes = take 5 bytes ∷ drop 5 bytes ∷ []

flatten-cut_at_five : (bytes : List ℕ) → flatten (cut_at_five bytes) ≡ bytes
unfolding flatten
flatten-cut_at_five bytes =
    ap (λ xs. take 5 bytes ++ xs) (append-nil (drop 5 bytes)) ∙ take-append_drop 5 bytes

arrive-run_example :
    (connected final : Client) × (handled : Handled) × (send receive : String) × (on_connected
        key_name simple_memory simple_sign simple_kx
        (new_client 0 client_master)
      ≡ ok connected)
    × (run key_name simple_memory simple_sign simple_kx true known_keys
          (cut_at_five connected.written)
          server_master
        ≡ ok handled)
    × (arrive key_name simple_memory simple_sign simple_kx known_keys connected
          (cut_at_five handled.written)
        ≡ ok final)
    × (handled.errors ≡ [])
    × (handled.emitted ≡ (send, receive) ∷ [])
    × (final.errors ≡ 0)
    × (final.emitted ≡ (receive, send) ∷ [])
arrive-run_example =
    arrive-run key_name simple_memory simple_sign simple_kx 0 client_master server_master known_keys
      known_keys cut_at_five cut_at_five flatten-cut_at_five flatten-cut_at_five client-IsFresh
      server-IsFresh refl refl client-Trusts server-Trusts

abbrev wrong_body : List ℕ
wrong_body = replicate 128 7

abbrev connected_client : Client
connected_client = new_client 3 client_master

arrive_lem_example :
    arrive key_name simple_memory simple_sign simple_kx known_keys
      (waiting connected_client)
      (cut_at_five (1 ∷ wrong_body))
    ≡ handle_body key_name simple_memory simple_sign simple_kx known_keys connected_client 1
        wrong_body
unfolding request_size
arrive_lem_example =
    arrive_lem key_name simple_memory simple_sign simple_kx known_keys 1 128 refl refl (omega arith)
      connected_client (cut_at_five (1 ∷ wrong_body)) wrong_body refl
      (flatten-cut_at_five (1 ∷ wrong_body))

-- The type DataTransfer.
arrive-fault_example :
    arrive key_name simple_memory simple_sign simple_kx known_keys
      (waiting connected_client)
      (cut_at_five (2 ∷ 9 ∷ []))
    ≡ fault
unfolding request_size
arrive-fault_example =
    arrive-fault key_name simple_memory simple_sign simple_kx known_keys 2 connected_client
      (cut_at_five (2 ∷ 9 ∷ [])) (9 ∷ []) refl refl (flatten-cut_at_five (2 ∷ 9 ∷ []))

run_lem_example :
    run key_name simple_memory simple_sign simple_kx true known_keys
      (cut_at_five (0 ∷ wrong_body))
      server_master
    ≡ answer key_name simple_memory simple_sign simple_kx known_keys 0 wrong_body server_master
unfolding request_size
run_lem_example =
    run_lem key_name simple_memory simple_sign simple_kx known_keys 0 128 refl
      (cut_at_five (0 ∷ wrong_body)) wrong_body server_master refl
      (flatten-cut_at_five (0 ∷ wrong_body))
