-- ===== src/Cipher/Sealing.antt =====
-- src/cipher.cpp with a public key: `encryptData` for the owner of a private key, who reads it by
-- `decryptData`. Both keys of the box come from the private key.
use cscrypto.Base.{
  ℕ, ◌+◌, ◌-◌, ◌≡◌, ◌∙◌, ap, refl, true, false, Option, none, some, List, ◌++◌, arith, ltb,
  le→not_ltb, if◌then◌else◌, length, length-replicate, replicate, drop_all, Outcome, ok, ◌>>=◌,
  copy_to, copy_to-append,
}
use mathlib.Core.List.{append-nil}
use cscrypto.Sodium.Memory.{Region, region, no_access, SodiumMemory}
use cscrypto.Sodium.Sign.{SodiumSign}
use cscrypto.Sodium.SealedBox.{SealedBox, box_sealbytes}
use cscrypto.MainCryptoFunctions.{with_access, with_access_lem}
use cscrypto.Cipher.{Decrypted, resize}
use cscrypto.Cipher.Data.{length-resize}

module _ (s : SodiumSign) (box : SealedBox) where
  -- `extractSeed` and `crypto_box_seed_keypair`, on the bytes of the private key.
  unfoldable pub encryption_keys : List ℕ → Option (List ℕ × List ℕ)
  encryption_keys sk = elim (s.sk_to_seed sk) [ none ↦ none | some seed ↦ box.seed_keypair seed ]

-- `none` is the result false.
unfoldable pub public_key : Option (List ℕ × List ℕ) → Option (List ℕ)
public_key none = none
public_key (some (pk, sk)) = some pk

module _ (m : SodiumMemory) (s : SodiumSign) (box : SealedBox) where
  unfoldable pub get_encryption_keys_from_private :
      Region → Outcome (Option (List ℕ × List ℕ) × Region)
  get_encryption_keys_from_private key = with_access m key (encryption_keys s box)

  unfoldable pub get_pub_cipher_key : Region → Outcome (Option (List ℕ) × Region)
  get_pub_cipher_key key = do
    (keys, key') ← get_encryption_keys_from_private key
    ok (public_key keys, key')

  unfoldable pub encrypt_for : (random source pk : List ℕ) → Outcome (List ℕ)
  encrypt_for random source pk =
      copy_to (replicate (length source + box_sealbytes) 0) 0 (box.seal random source pk)

  unfoldable pub open_sealed :
      (target source : List ℕ) → Region → Option (List ℕ × List ℕ) → Decrypted
  open_sealed target source key none = record { done = false; target = target; key = key }
  open_sealed target source key (some (pk, sk)) =
      let (done, target') = box.seal_open target source pk sk in
      record { done = done; target = target'; key = key }

  unfoldable pub decrypt_with : (target source : List ℕ) → Region → Outcome Decrypted
  decrypt_with target source key =
      if ltb (length source) box_sealbytes
      then ok (record { done = false; target = target; key = key })
      else (do
        (keys, key') ← get_encryption_keys_from_private key
        ok (open_sealed (resize target (length source - box_sealbytes)) source key' keys))

  zeros_left :
      (random source pk : List ℕ)
      → length (replicate {A = ℕ} (length source + box_sealbytes) 0)
        ≡ length (box.seal random source pk)
  zeros_left random source pk = omega (
    arith,
    length-replicate {A = ℕ} (length source + box_sealbytes) 0,
    box.seal_length random source pk,
  )

  encrypt_for_lem :
      (random source pk : List ℕ) → encrypt_for random source pk ≡ ok (box.seal random source pk)
  unfolding encrypt_for
  encrypt_for_lem random source pk =
      let zeros = replicate {A = ℕ} (length source + box_sealbytes) 0 in
      let sealed = box.seal random source pk in
      copy_to-append zeros sealed (omega (arith, zeros_left random source pk))
      ∙ ap ok (
          ap (λ xs. sealed ++ xs)
            (drop_all (length sealed) zeros (omega (arith, zeros_left random source pk)))
          ∙ append-nil sealed)

  buffer-length :
      (random source target pk : List ℕ)
      → length (resize target (length (box.seal random source pk) - box_sealbytes)) ≡ length source
  buffer-length random source target pk = omega (
    arith,
    length-resize target (length (box.seal random source pk) - box_sealbytes),
    box.seal_length random source pk,
  )

  encryption_keys-seeded :
      (sk seed pk box_sk : List ℕ)
      → s.sk_to_seed sk ≡ some seed
      → box.seed_keypair seed ≡ some (pk, box_sk)
      → encryption_keys s box sk ≡ some (pk, box_sk)
  unfolding encryption_keys
  encryption_keys-seeded sk seed pk box_sk seeded paired = rw (encryption_keys, seeded) paired

  decrypt_with-seal :
      (random source target : List ℕ) (key : Region) (seed pk sk : List ℕ)
      → encryption_keys s box key.bytes ≡ some (pk, sk)
      → box.seed_keypair seed ≡ some (pk, sk)
      → decrypt_with target (box.seal random source pk) key
        ≡ ok (record { done = true; target = source; key = region key.bytes no_access })
  unfolding decrypt_with get_encryption_keys_from_private open_sealed
  decrypt_with-seal random source target key seed pk sk keys paired =
      let sealed = box.seal random source pk in
      rw
        (
          le→not_ltb (length sealed) 48 (omega (arith, box.seal_length random source pk)),
          with_access_lem m key (encryption_keys s box),
          keys,
          box.seal_open_lem random (resize target (length sealed - box_sealbytes)) source seed pk sk
              paired (buffer-length random source target pk),
        )
        refl

  -- The public key of a private key of 64 bytes can be had, and what is encrypted for it is
  -- decrypted with the private key: for every source and whatever the target held. The private key
  -- is locked after each use.
  pub decrypt_with-encrypt_for :
      (random source target : List ℕ) (key : Region)
      → length key.bytes ≡ 64
      → (pk sealed : List ℕ) × (get_pub_cipher_key key ≡ ok (some pk, region key.bytes no_access))
        × (encrypt_for random source pk ≡ ok sealed)
        × (decrypt_with target sealed key
            ≡ ok (record { done = true; target = source; key = region key.bytes no_access }))
  unfolding get_pub_cipher_key get_encryption_keys_from_private public_key
  decrypt_with-encrypt_for random source target key l =
      let (seed, seeded) = s.sk_to_seed_lem key.bytes l in
      let (pk, sk, paired) = box.seed_keypair_lem seed in
      let keys = encryption_keys-seeded key.bytes seed pk sk seeded paired in
      (
        pk,
        box.seal random source pk,
        rw (with_access_lem m key (encryption_keys s box), keys) refl,
        encrypt_for_lem random source pk,
        decrypt_with-seal random source target key seed pk sk keys paired,
      )
