-- ===== src/Sodium/SealedBox.antt =====
-- `crypto_box_seed_keypair`, `crypto_box_seal` and `crypto_box_seal_open`.
use cscrypto.Base.{ℕ, ◌+◌, ◌≡◌, Bool, true, Option, some, List, length}

abbrev pub box_sealbytes : ℕ
box_sealbytes = 48

-- `seal random message public_key` draws its own key pair from `random`; `seal_open buffer cipher
-- public_key secret_key` is whether the result is 0, and what the output buffer holds then.
pub record SealedBox : Type 0 where
  pub seed_keypair : List ℕ → Option (List ℕ × List ℕ)
  pub seal : List ℕ → List ℕ → List ℕ → List ℕ
  pub seal_open : List ℕ → List ℕ → List ℕ → List ℕ → Bool × List ℕ
  pub seed_keypair_lem :
      (seed : List ℕ) → (pk : List ℕ) × (sk : List ℕ) × (seed_keypair seed ≡ some (pk, sk))
  pub seal_length :
      (random message pk : List ℕ)
      → length (seal random message pk) ≡ length message + box_sealbytes
  pub seal_open_lem :
      (random buffer message seed pk sk : List ℕ)
      → seed_keypair seed ≡ some (pk, sk)
      → length buffer ≡ length message
      → seal_open buffer (seal random message pk) pk sk ≡ (true, message)
