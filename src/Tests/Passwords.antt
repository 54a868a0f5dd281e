-- ===== src/Tests/Passwords.antt =====
-- A private key under a password.
use cscrypto.Base.{
  ℕ, ◌≤◌, ◌<◌, ◌≡◌, ◌⊎◌, refl, none, some, List, [], ◌∷◌, arith, length, take, replicate, ok, fault,
  drop,
}
use cscrypto.Sodium.Memory.{region, no_access}
use cscrypto.Sodium.Heap.{Ptr, update}
use cscrypto.PrivateKey.{key_object, World}
use cscrypto.PrivateKey.Encrypted.{get_key_from_password, read_from_encrypted, get_encrypted}
use cscrypto.PrivateKey.Decrypted.{IsRead}
use cscrypto.PrivateKey.Password.{read_from_encrypted_lem, read_from_encrypted-get_encrypted}
use cscrypto.Tests.PrivateKeys.{offer, simple_heap}
use cscrypto.Tests.Aeads.{cut_tag, simple_aead, simple_pwhash}

abbrev sk : List ℕ
sk = replicate 64 5

-- One object with the counter 1 and the region 10.
abbrev one_key : World
one_key = record {
  objects = key_object 10 1 ∷ [];
  heap = update (λ p. none) 10 (some (region sk no_access));
  counters = update (λ p. none) 1 (some 1);
}

read_from_encrypted-get_encrypted_example :
    (bytes : List ℕ) × (w' after : World) × (p : Ptr) × (get_encrypted simple_heap simple_aead
        simple_pwhash 0
        (replicate 8 9)
        (1 ∷ 2 ∷ 3 ∷ [])
        one_key
      ≡ ok (bytes, w'))
    × (length bytes ≡ 88)
    × (read_from_encrypted simple_heap simple_aead simple_pwhash 2 3 20 bytes (1 ∷ 2 ∷ 3 ∷ []) w'
        ≡ ok after)
    × (after.objects ≡ key_object 10 1 ∷ key_object p 2 ∷ [])
    × (after.heap p ≡ some (region sk no_access))
    × (after.heap 10 ≡ some (region sk no_access))
unfolding get_key_from_password offer
read_from_encrypted-get_encrypted_example =
    read_from_encrypted-get_encrypted simple_heap simple_aead simple_pwhash one_key 0
      (key_object 10 1) sk (replicate 8 9) (1 ∷ 2 ∷ 3 ∷ []) (replicate 32 7) no_access 2 3 20 refl
      refl refl refl refl (omega arith)

-- An encrypted text of 89 bytes.
abbrev long_text : List ℕ
long_text = replicate 89 1

read_from_encrypted_lem_example :
    ((88 < length long_text)
      × (read_from_encrypted simple_heap simple_aead simple_pwhash 2 3 20 long_text (1 ∷ []) one_key
          ≡ fault))
    ⊎ ((length long_text ≤ 88)
        × (after : World) × (read_from_encrypted simple_heap simple_aead simple_pwhash 2 3 20
              long_text
              (1 ∷ [])
              one_key
            ≡ ok after)
        × IsRead (cut_tag (drop 8 long_text) (take 8 long_text) (replicate 32 7)) one_key after)
unfolding get_key_from_password offer
read_from_encrypted_lem_example =
    read_from_encrypted_lem simple_heap simple_aead simple_pwhash 2 3 20 long_text (1 ∷ [])
      (replicate 32 7) one_key refl (omega arith)
