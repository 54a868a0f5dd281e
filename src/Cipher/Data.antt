-- ===== src/Cipher/Data.antt =====
-- `encryptData` and `decryptData` of src/cipher.cpp with a symmetric key.
use cscrypto.Base.{
  ℕ, ◌+◌, ◌-◌, ◌≤◌, ◌≡◌, refl, true, List, ◌++◌, arith, length, take, drop, replicate,
  length-replicate, length-append, length-take, length-drop, drop-append_at, take-append_at, ok,
  copy_to-append, copy_to-end, le→not_ltb,
}
use cscrypto.Sodium.Memory.{region, no_access, read_only, SodiumMemory}
use cscrypto.Sodium.SecretBox.{SecretBox, secretbox_macbytes, secretbox_noncebytes}
use cscrypto.Cipher.{CipherKey, encrypt_data, decrypt_data, resize}

pub length-resize : (xs : List ℕ) (n : ℕ) → length (resize xs n) ≡ n
unfolding resize
length-resize xs n = omega (
  arith,
  length-append (take n xs) (replicate (n - length xs) 0),
  length-take n xs,
  length-replicate {A = ℕ} (n - length xs) 0,
)

zeros-room : (n : ℕ) (src : List ℕ) → length src ≤ length (replicate {A = ℕ} (n + length src) 0)
zeros-room n src = omega (arith, length-replicate {A = ℕ} (n + length src) 0)

length-drop_zeros :
    (n : ℕ) (src : List ℕ) → length (drop (length src) (replicate {A = ℕ} (n + length src) 0)) ≡ n
length-drop_zeros n src = omega (
  arith,
  length-replicate {A = ℕ} (n + length src) 0,
  length-drop (length src) (replicate {A = ℕ} (n + length src) 0),
)

module _ (m : SodiumMemory) (box : SecretBox) where
  easy-room :
      (nonce source : List ℕ) (key : CipherKey)
      → length (
          drop
            (length nonce)
            (replicate {A = ℕ} (length source + secretbox_macbytes + length nonce) 0))
        ≡ length (box.easy source nonce key.bytes)
  easy-room nonce source key = omega (
    arith,
    length-drop_zeros (length source + secretbox_macbytes) nonce,
    box.easy_length source nonce key.bytes,
  )

  -- The nonce stands before the cipher text.
  pub encrypt_data_lem :
      (nonce source : List ℕ) (key : CipherKey)
      → encrypt_data m box nonce source key
        ≡ ok (nonce ++ box.easy source nonce key.bytes, region key.bytes no_access)
  unfolding encrypt_data
  encrypt_data_lem nonce source key =
      rw
        (
          copy_to-append (replicate (length source + secretbox_macbytes + length nonce) 0) nonce
              (zeros-room (length source + secretbox_macbytes) nonce),
          m.readonly_lem key,
          copy_to-end nonce
              (drop (length nonce)
                (replicate (length source + secretbox_macbytes + length nonce) 0))
              (box.easy source nonce key.bytes) (easy-room nonce source key),
          m.noaccess_lem (region key.bytes read_only),
        )
        refl

  decrypt_data-opens :
      (target source : List ℕ) (key : CipherKey)
      → secretbox_macbytes + secretbox_noncebytes ≤ length source
      → decrypt_data m box target source key
        ≡ ok (record {
          done =
              (box.open_easy
                (resize target (length source - secretbox_macbytes - secretbox_noncebytes))
                (drop secretbox_noncebytes source)
                (take secretbox_noncebytes source)
                key.bytes).0;
          target =
              (box.open_easy
                (resize target (length source - secretbox_macbytes - secretbox_noncebytes))
                (drop secretbox_noncebytes source)
                (take secretbox_noncebytes source)
                key.bytes).1;
          key = region key.bytes no_access;
        })
  unfolding decrypt_data
  decrypt_data-opens target source key h =
      rw
        (
          le→not_ltb (length source) 40 h,
          m.readonly_lem key,
          m.noaccess_lem (region key.bytes read_only),
        )
        refl

  sealed-length :
      (nonce source : List ℕ) (key : CipherKey)
      → length nonce ≡ secretbox_noncebytes
      → secretbox_macbytes + secretbox_noncebytes
        ≤ length (nonce ++ box.easy source nonce key.bytes)
  sealed-length nonce source key n = omega (
    arith,
    length-append nonce (box.easy source nonce key.bytes),
    box.easy_length source nonce key.bytes,
  )

  plain-length :
      (nonce source target : List ℕ) (key : CipherKey)
      → length nonce ≡ secretbox_noncebytes
      → length (
          resize target (
            length (nonce ++ box.easy source nonce key.bytes)
            - secretbox_macbytes
            - secretbox_noncebytes))
        ≡ length source
  plain-length nonce source target key n = omega (
    arith,
    length-append nonce (box.easy source nonce key.bytes),
    box.easy_length source nonce key.bytes,
    length-resize target (
        length (nonce ++ box.easy source nonce key.bytes)
        - secretbox_macbytes
        - secretbox_noncebytes),
  )

  -- Decrypting what was encrypted gives the source back and ends without a fault: for every nonce of
  -- 24 bytes, every source, any access the key had before, and whatever the target held. The key is
  -- locked after both.
  pub decrypt_data-encrypt_data :
      (nonce source target : List ℕ) (key : CipherKey)
      → length nonce ≡ secretbox_noncebytes
      → (sealed : List ℕ) × (encrypt_data m box nonce source key
          ≡ ok (sealed, region key.bytes no_access))
        × (decrypt_data m box target sealed (region key.bytes no_access)
            ≡ ok (record { done = true; target = source; key = region key.bytes no_access }))
  decrypt_data-encrypt_data nonce source target key n = (
    nonce ++ box.easy source nonce key.bytes,
    encrypt_data_lem nonce source key,
    rw
        (
          decrypt_data-opens target (nonce ++ box.easy source nonce key.bytes)
              (region key.bytes no_access) (sealed-length nonce source key n),
          drop-append_at 24 nonce (box.easy source nonce key.bytes) n,
          take-append_at 24 nonce (box.easy source nonce key.bytes) n,
          box.open_easy_lem
              (resize target (
                length (nonce ++ box.easy source nonce key.bytes)
                - secretbox_macbytes
                - secretbox_noncebytes))
              source nonce key.bytes (plain-length nonce source target key n),
        )
        refl,
  )
