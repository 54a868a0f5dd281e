-- ===== src/KeyExchange.antt =====
-- src/keyexchange.cpp: session keys from the private keys of two ends.
pub mod Agreement
use cscrypto.Base.{ℕ, Option, none, some, List, Outcome, ok, ◌>>=◌}
use cscrypto.Sodium.Memory.{Region, SodiumMemory}
use cscrypto.Sodium.Sign.{SodiumSign}
use cscrypto.Sodium.Kx.{SodiumKx, kx_public_key_bytes}
use cscrypto.MainCryptoFunctions.{with_access}

abbrev pub pub_exchange_key_size : ℕ
pub_exchange_key_size = kx_public_key_bytes

module _ (s : SodiumSign) (k : SodiumKx) where
  -- `getExchangeKeysFromPrivate` on the bytes of the private key.
  unfoldable pub exchange_keys : List ℕ → Option (List ℕ × List ℕ)
  exchange_keys sk = elim (s.sk_to_seed sk) [ none ↦ none | some seed ↦ k.seed_keypair seed ]

-- The public key alone. `none` is the result false.
unfoldable pub public_part : Option (List ℕ × List ℕ) → Option (List ℕ)
public_part none = none
public_part (some (epk, esk)) = some epk

module _ (m : SodiumMemory) (s : SodiumSign) (k : SodiumKx) where
  unfoldable pub get_exchange_keys_from_private :
      Region → Outcome (Option (List ℕ × List ℕ) × Region)
  get_exchange_keys_from_private key = with_access m key (exchange_keys s k)

  unfoldable pub get_pub_exchange_key : Region → Outcome (Option (List ℕ) × Region)
  get_pub_exchange_key key = do
    (keys, key') ← get_exchange_keys_from_private key
    ok (public_part keys, key')

  -- The key to receive with and the key to send with.
  unfoldable pub get_client_session_keys :
      Region → (server_pk : List ℕ) → Outcome (Option (List ℕ × List ℕ) × Region)
  get_client_session_keys key server_pk = do
    (keys, key') ← get_exchange_keys_from_private key
    ok (elim keys [ none ↦ none | some (epk, esk) ↦ k.client epk esk server_pk ], key')

  unfoldable pub get_server_session_keys :
      Region → (client_pk : List ℕ) → Outcome (Option (List ℕ × List ℕ) × Region)
  get_server_session_keys key client_pk = do
    (keys, key') ← get_exchange_keys_from_private key
    ok (elim keys [ none ↦ none | some (epk, esk) ↦ k.server epk esk client_pk ], key')
