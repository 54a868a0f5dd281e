-- ===== src/Sodium.antt =====
-- The constants and functions of libsodium that the sources call. The library is a git submodule, so
-- each group of functions is a record: its operations, and as laws what its documentation says.
pub mod Memory
pub mod Heap
pub mod SecretBox
pub mod Aead
pub mod SecretStream
pub mod SealedBox
pub mod Sign
pub mod Kx
pub mod Kdf
use cscrypto.Base.{ℕ}

abbrev pub kdf_keybytes : ℕ
kdf_keybytes = 32
