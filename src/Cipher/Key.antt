-- ===== src/Cipher/Key.antt =====
-- Cipher keys: generated, and from a password.
use cscrypto.Base.{ℕ, Option, none, some, List, [], take}
use cscrypto.Blake2.{Blake2}
use cscrypto.MainCryptoFunctions.{calculate_hash}
use cscrypto.Sodium.Aead.{SodiumPwhash, pwhash_saltbytes}
use cscrypto.Sodium.Memory.{region, read_write, SodiumMemory}
use cscrypto.Cipher.{CipherKey}

abbrev pub cipher_key_size : ℕ
cipher_key_size = 32

-- `random` is what `crypto_secretstream_xchacha20poly1305_keygen` writes.
unfoldable pub generate_cipher_key : SodiumMemory → (random : List ℕ) → CipherKey
generate_cipher_key m random = m.mprotect_noaccess (region random read_write)

-- `none` is a guard that was cleared: its pointer is NULL. The salt is the first part of the hash.
unfoldable pub get_cipher_key_from_password :
    SodiumMemory → Blake2 → SodiumPwhash → (garbage pswd : List ℕ) → Option CipherKey
get_cipher_key_from_password m b ph garbage pswd =
    let hash = calculate_hash b garbage pswd [] in
    elim (ph.pwhash cipher_key_size pswd (take pwhash_saltbytes hash)) [
      | none ↦ none
      | some key ↦ some (m.mprotect_noaccess (region key read_write))
    ]
