-- ===== src/Sodium/Sign.antt =====
-- Ed25519 signatures: `crypto_sign_ed25519_detached`, `crypto_sign_ed25519_verify_detached`,
-- `crypto_sign_ed25519_sk_to_pk` and `crypto_sign_ed25519_sk_to_seed`.
use cscrypto.Base.{ℕ, ◌≡◌, Bool, true, Option, some, List, length}

-- `verify signature data public_key`: whether the result is 0.
pub record SodiumSign : Type 0 where
  pub sk_to_pk : List ℕ → List ℕ
  pub sk_to_seed : List ℕ → Option (List ℕ)
  pub sign : List ℕ → List ℕ → List ℕ
  pub verify : List ℕ → List ℕ → List ℕ → Bool
  pub sk_to_pk_length : (sk : List ℕ) → length (sk_to_pk sk) ≡ 32
  pub sk_to_seed_lem :
      (sk : List ℕ) → length sk ≡ 64 → (seed : List ℕ) × (sk_to_seed sk ≡ some seed)
  pub sign_length : (data_bytes sk : List ℕ) → length (sign data_bytes sk) ≡ 64
  pub verify-sign :
      (data_bytes sk : List ℕ)
      → length sk ≡ 64
      → verify (sign data_bytes sk) data_bytes (sk_to_pk sk) ≡ true
