-- ===== src/Sodium/Aead.antt =====
-- `crypto_aead_chacha20poly1305_encrypt` and `_decrypt` without additional data, and
-- `crypto_pwhash` with the limits SENSITIVE.
use cscrypto.Base.{ℕ, ◌+◌, ◌≡◌, Option, some, List, length}

abbrev pub aead_keybytes : ℕ
aead_keybytes = 32

abbrev pub aead_npubbytes : ℕ
aead_npubbytes = 8

abbrev pub aead_abytes : ℕ
aead_abytes = 16

abbrev pub pwhash_saltbytes : ℕ
pwhash_saltbytes = 16

-- `encrypt message nonce key` and `decrypt cipher nonce key`: the output, or `none` for the result -1.
pub record SodiumAead : Type 0 where
  pub encrypt : List ℕ → List ℕ → List ℕ → Option (List ℕ)
  pub decrypt : List ℕ → List ℕ → List ℕ → Option (List ℕ)
  pub encrypt_lem :
      (message nonce key : List ℕ)
      → (cipher : List ℕ) × (encrypt message nonce key ≡ some cipher)
        × (length cipher ≡ length message + aead_abytes)
        × (decrypt cipher nonce key ≡ some message)

-- `pwhash size password salt`: a key of that size, or `none` if there is not enough memory.
pub record SodiumPwhash : Type 0 where
  pub pwhash : ℕ → List ℕ → List ℕ → Option (List ℕ)
