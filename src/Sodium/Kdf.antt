-- ===== src/Sodium/Kdf.antt =====
-- `crypto_kdf_derive_from_key` and `crypto_sign_seed_keypair`.
use cscrypto.Base.{ℕ, ◌≡◌, List, length}
use cscrypto.Sodium.Sign.{SodiumSign}

abbrev pub kdf_contextbytes : ℕ
kdf_contextbytes = 8

abbrev pub sign_seedbytes : ℕ
sign_seedbytes = 32

-- `derive size id context key`, and the public and the private key of a seed.
pub record SodiumKdf (s : SodiumSign) : Type 0 where
  pub derive : ℕ → ℕ → List ℕ → List ℕ → List ℕ
  pub seed_keypair : List ℕ → List ℕ × List ℕ
  pub seed_keypair_length : (seed : List ℕ) → length (seed_keypair seed).1 ≡ 64
  pub seed_keypair_lem : (seed : List ℕ) → s.sk_to_pk (seed_keypair seed).1 ≡ (seed_keypair seed).0
