-- ===== src/Base58.antt =====
-- The interface of src/third-party/base58, a copy of the Base58 code of Bitcoin Core, which the
-- widgets of qt call.
use Prim.Native.String.{String}
use cscrypto.Texts.{has_no_space}
use cscrypto.Base.{ℕ, ◌≡◌, true, Option, some, List, []}

-- `decode text` is `none` where `DecodeBase58` returns false.
pub record Base58 : Type 0 where
  pub encode : List ℕ → String
  pub decode : String → Option (List ℕ)
  pub decode-encode : (bytes : List ℕ) → decode (encode bytes) ≡ some bytes
  pub decode_empty : decode "" ≡ some []
  pub encode-has_no_space : (bytes : List ℕ) → has_no_space (encode bytes) ≡ true
