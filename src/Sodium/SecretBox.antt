-- ===== src/Sodium/SecretBox.antt =====
-- `crypto_secretbox_easy` and `crypto_secretbox_open_easy`.
use cscrypto.Base.{ℕ, ◌+◌, ◌≡◌, Bool, true, List, length}

abbrev pub secretbox_macbytes : ℕ
secretbox_macbytes = 16

abbrev pub secretbox_noncebytes : ℕ
secretbox_noncebytes = 24

-- `easy message nonce key`, and `open_easy buffer cipher nonce key`: whether the result is 0, and
-- what the output buffer holds then.
pub record SecretBox : Type 0 where
  pub easy : List ℕ → List ℕ → List ℕ → List ℕ
  pub open_easy : List ℕ → List ℕ → List ℕ → List ℕ → Bool × List ℕ
  pub easy_length :
      (message nonce key : List ℕ)
      → length (easy message nonce key) ≡ length message + secretbox_macbytes
  pub open_easy_lem :
      (buffer message nonce key : List ℕ)
      → length buffer ≡ length message
      → open_easy buffer (easy message nonce key) nonce key ≡ (true, message)
