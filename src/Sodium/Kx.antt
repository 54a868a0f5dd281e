-- ===== src/Sodium/Kx.antt =====
-- Key exchange: `crypto_kx_seed_keypair`, `crypto_kx_client_session_keys` and
-- `crypto_kx_server_session_keys`.
use cscrypto.Base.{ℕ, ◌≡◌, Option, some, List, length}

abbrev pub kx_public_key_bytes : ℕ
kx_public_key_bytes = 32

-- `client own_pk own_sk server_pk` and `server own_pk own_sk client_pk` give the key to receive
-- with and the key to send with; `none` is the result -1.
pub record SodiumKx : Type 0 where
  pub seed_keypair : List ℕ → Option (List ℕ × List ℕ)
  pub client : List ℕ → List ℕ → List ℕ → Option (List ℕ × List ℕ)
  pub server : List ℕ → List ℕ → List ℕ → Option (List ℕ × List ℕ)
  pub seed_keypair_lem :
      (seed : List ℕ)
      → (pk : List ℕ) × (sk : List ℕ) × (seed_keypair seed ≡ some (pk, sk))
        × (length pk ≡ kx_public_key_bytes)
  -- What one end receives with, the other end sends with.
  pub kx_lem :
      (seed seed' pk sk pk' sk' : List ℕ)
      → seed_keypair seed ≡ some (pk, sk)
      → seed_keypair seed' ≡ some (pk', sk')
      → (rx : List ℕ) × (tx : List ℕ) × (client pk sk pk' ≡ some (rx, tx))
        × (server pk' sk' pk ≡ some (tx, rx))
