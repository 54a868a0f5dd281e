-- ===== src/Tests/Seals.antt =====
-- Data for the owner of a private key, sealed by putting the public key in front of the message.
use cscrypto.Base.{
  ℕ, ◌+◌, ◌≡◌, refl, Bool, true, Option, some, List, [], ◌∷◌, ◌++◌, arith, ◌==◌, length, replicate,
  get_or, drop, ok,
}
use cscrypto.Sodium.Memory.{Region, region, no_access, simple_memory}
use cscrypto.Sodium.SealedBox.{SealedBox}
use cscrypto.Cipher.Sealing.{
  get_pub_cipher_key, encrypt_for, decrypt_with, decrypt_with-encrypt_for,
}
use cscrypto.Tests.Exchanges.{simple_sign}

box_pair : List ℕ → Option (List ℕ × List ℕ)
box_pair seed = some (get_or seed 0 0 ∷ [], 7 ∷ [])

box_pair_lem : (seed : List ℕ) → (pk : List ℕ) × (sk : List ℕ) × (box_pair seed ≡ some (pk, sk))
unfolding box_pair
box_pair_lem seed = (get_or seed 0 0 ∷ [], 7 ∷ [], refl)

seal_message : List ℕ → List ℕ → List ℕ → List ℕ
seal_message random message pk = replicate 48 (get_or pk 0 0) ++ message

seal_message-length :
    (random message pk : List ℕ) → length (seal_message random message pk) ≡ length message + 48
unfolding seal_message
seal_message-length random message pk = omega arith

open_message : List ℕ → List ℕ → List ℕ → List ℕ → Bool × List ℕ
open_message buffer cipher pk sk = (get_or cipher 0 0 == get_or pk 0 0, drop 48 cipher)

open_message-seal :
    (random buffer message seed pk sk : List ℕ)
    → box_pair seed ≡ some (pk, sk)
    → length buffer ≡ length message
    → open_message buffer (seal_message random message pk) pk sk ≡ (true, message)
unfolding open_message seal_message
open_message-seal random buffer message seed pk sk e l = rw (equal_self (get_or pk 0 0)) refl
  where
    equal_self : (n : ℕ) → (n == n) ≡ true
    equal_self n = ground arith

abbrev simple_sealed_box : SealedBox
simple_sealed_box = record {
  seed_keypair = box_pair;
  seal = seal_message;
  seal_open = open_message;
  seed_keypair_lem = box_pair_lem;
  seal_length = seal_message-length;
  seal_open_lem = open_message-seal;
}

abbrev owner_key : Region
owner_key = region (replicate 64 5) no_access

decrypt_with-encrypt_for_example :
    (pk sealed : List ℕ) × (get_pub_cipher_key simple_memory simple_sign simple_sealed_box owner_key
      ≡ ok (some pk, owner_key))
    × (encrypt_for simple_memory simple_sign simple_sealed_box [] (1 ∷ 2 ∷ []) pk ≡ ok sealed)
    × (decrypt_with simple_memory simple_sign simple_sealed_box (9 ∷ []) sealed owner_key
        ≡ ok (record { done = true; target = 1 ∷ 2 ∷ []; key = owner_key }))
decrypt_with-encrypt_for_example =
    decrypt_with-encrypt_for simple_memory simple_sign simple_sealed_box [] (1 ∷ 2 ∷ []) (9 ∷ [])
      owner_key refl
