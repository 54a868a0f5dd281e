-- ===== src/PrivateKey/Encrypted.antt =====
-- `PrivateKey` objects from new memory that libsodium fills, and keys encrypted with a password.
use cscrypto.Base.{
  ℕ, ◌+◌, Option, none, some, List, [], ◌∷◌, ltb, ◌==◌, if◌then◌else◌, length, take, drop, Outcome,
  ok, fault, ◌>>=◌, read, from_option, copy_to,
}
use cscrypto.MainCryptoFunctions.{private_key_size, with_access}
use cscrypto.Cipher.{resize}
use cscrypto.Sodium.Memory.{Region, region, no_access, SodiumMemory, readable}
use cscrypto.Sodium.Heap.{Ptr, null, update, SodiumHeap}
use cscrypto.Sodium.Aead.{SodiumAead, SodiumPwhash, aead_keybytes, aead_npubbytes, aead_abytes}
use cscrypto.PrivateKey.{World, construct, fill_result, release}

-- The constant `salt`.
abbrev pub salt : List ℕ
salt = 73 ∷ 68 ∷ 73 ∷ 32 ∷ 78 ∷ 65 ∷ 72 ∷ 85 ∷ 89 ∷ 32 ∷ 66 ∷ 76 ∷ 89 ∷ 65 ∷ 84 ∷ 39 ∷ []

-- `none` is a guard that was cleared: its pointer is NULL.
unfoldable pub get_key_from_password : SodiumPwhash → List ℕ → Option (List ℕ)
get_key_from_password ph passwd = ph.pwhash aead_keybytes passwd salt

-- What `getEncrypted` makes of the bytes it reads, with `nonce` from `randombytes_buf`.
unfoldable pub sealed : SodiumAead → (nonce key pk : List ℕ) → Outcome (List ℕ)
sealed aead nonce key pk = elim (aead.encrypt pk nonce key) [
  | none ↦ ok []
  | some cipher ↦ do
    let result = resize [] (aead_npubbytes + length cipher)
    result' ← copy_to result 0 nonce
    copy_to result' aead_npubbytes cipher
]

-- The decryption and the test of `decrypted_len`. The output is written before anything compares
-- its size with that of the region.
unfoldable pub open_encrypted : SodiumAead → (cipher nonce key : List ℕ) → Outcome (Option (List ℕ))
open_encrypted aead cipher nonce key =
    if ltb (private_key_size + aead_abytes) (length cipher)
    then fault
    else elim (aead.decrypt cipher nonce key) [
      | none ↦ ok none
      | some plain ↦ ok (if length plain == private_key_size then some plain else none)
    ]

module _ (m : SodiumHeap) where
  -- `PrivateKey::generateWithPair`: `pair` is what `crypto_sign_keypair` makes.
  unfoldable pub generate_with_pair :
      Ptr → Ptr → (pair : List ℕ × List ℕ) → World → Outcome (List ℕ × World)
  generate_with_pair c choice (pk, sk) w = do w' ← fill_result m c choice sk w; ok (pk, w')

  -- `PrivateKey::readFromBytes` with a guard of 64 bytes.
  unfoldable pub read_from_guard : Ptr → Ptr → List ℕ → World → Outcome World
  read_from_guard c choice bytes w = fill_result m c choice bytes w

  -- A decrypted text with the size of a key. With a NULL output the decryption only verifies, and
  -- `result` stays without a region.
  unfoldable pub accept_decrypted : Ptr → Ptr → List ℕ → World → Outcome World
  accept_decrypted c choice plain w =
      let (p, h) = m.malloc choice private_key_size w.heap in
      if p == null
      then ok (construct m c (record w { heap = m.protect_noaccess null h }))
      else fill_result m c choice plain w

  -- The return of `PrivateKey()`, with the counter `c'`: the destructor of `result` releases its
  -- region, whatever it holds, and its counter `c`.
  unfoldable pub refuse_encrypted : Ptr → Ptr → Ptr → World → Outcome World
  refuse_encrypted c c' choice w =
      let (p, h) = m.malloc choice private_key_size w.heap in
      do
        h' ← release m p h
        ok (construct m c' (record w { heap = h'; counters = update w.counters c none }))

  module _ (aead : SodiumAead) (ph : SodiumPwhash) where
    unfoldable pub decrypt_into :
        Ptr → Ptr → Ptr → (cipher nonce key : List ℕ) → World → Outcome World
    decrypt_into c c' choice cipher nonce key w =
        open_encrypted aead cipher nonce key >>= (λ opened. elim opened [
          | none ↦ refuse_encrypted c c' choice w
          | some plain ↦ accept_decrypted c choice plain w
        ])

    -- `PrivateKey::readFromEncrypted`: the object that is returned is the last one.
    unfoldable pub read_from_encrypted :
        Ptr → Ptr → Ptr → (bytes passwd : List ℕ) → World → Outcome World
    read_from_encrypted c c' choice bytes passwd w =
        if ltb (length bytes) aead_npubbytes then ok (construct m c w) else (do
          key ← from_option (get_key_from_password ph passwd)
          decrypt_into c c' choice (drop aead_npubbytes bytes) (take aead_npubbytes bytes) key w)

    -- `PrivateKey::getEncrypted` of object `i`.
    unfoldable pub get_encrypted : ℕ → (nonce passwd : List ℕ) → World → Outcome (List ℕ × World)
    get_encrypted i nonce passwd w = do
      self ← read w.objects i
      let opened = m.protect_readonly self.mem w.heap
      r ← from_option (opened self.mem)
      pk ← readable r
      key ← from_option (get_key_from_password ph passwd)
      result ← sealed aead nonce key pk
      ok (result, record w { heap = m.protect_noaccess self.mem opened })

  -- `PrivateKey::access` of object `i`: the guard that it returns opens the region, its bytes are
  -- read, and its destructor locks the region.
  unfoldable pub access_object : ℕ → World → Outcome (List ℕ × World)
  access_object i w = do
    self ← read w.objects i
    let opened = m.protect_readonly self.mem w.heap
    r ← from_option (opened self.mem)
    bytes ← readable r
    ok (bytes, record w { heap = m.protect_noaccess self.mem opened })

-- `readFromEncrypted` and `getEncrypted` on the region of one key: what the new key holds, without the memory that
-- it is allocated in.
module _ (aead : SodiumAead) (ph : SodiumPwhash) where
  unfoldable pub read_encrypted_region : (bytes passwd : List ℕ) → Outcome (Option Region)
  read_encrypted_region bytes passwd = if ltb (length bytes) aead_npubbytes then ok none else (do
    key ← from_option (get_key_from_password ph passwd)
    opened ← open_encrypted aead (drop aead_npubbytes bytes) (take aead_npubbytes bytes) key
    ok (elim opened [ none ↦ none | some plain ↦ some (region plain no_access) ]))

  unfoldable pub get_encrypted_region :
      SodiumMemory → (nonce passwd : List ℕ) → Region → Outcome (List ℕ × Region)
  get_encrypted_region m nonce passwd sk = do
    key ← from_option (get_key_from_password ph passwd)
    (result, sk') ← with_access m sk (sealed aead nonce key)
    bytes ← result
    ok (bytes, sk')
