-- ===== src/CipherWidget/RoundTrip.antt =====
-- A file that is encrypted with a password, and then decrypted with it.
use Prim.Native.String.{String}
use cscrypto.Base.{
  ℕ, ◌≤◌, ◌≡◌, ◌≢◌, refl, ap, subst, ◌∙◌, true, false, some, List, [], arith, ltb, ◌==◌, le→not_ltb,
  if_true, if_false, if◌then◌else◌, copy_to, copy_to-end, length, take, ok,
}
use cscrypto.Base58.{Base58}
use cscrypto.Blake2.{Blake2}
use cscrypto.Cipher.{CipherKey, FileName, FileSystem, decrypt_file}
use cscrypto.Cipher.Key.{get_cipher_key_from_password}
use cscrypto.Cipher.RoundTrip.{decrypt_file-encrypt_file_any}
use cscrypto.MainCryptoFunctions.{calculate_hash}
use cscrypto.Sodium.Aead.{SodiumPwhash}
use cscrypto.Sodium.Memory.{Access, region, no_access, read_write, SodiumMemory}
use cscrypto.Sodium.SecretStream.{SecretStream}
use cscrypto.CipherWidget.{CipherWidget, start, start_with, try_decrypt, with_key, find_key, found}

module _ (b58 : Base58) (m : SodiumMemory) (b : Blake2) (ph : SodiumPwhash) (stream : SecretStream)
    (fresh garbage random stack : List ℕ) where
  -- The key for a password.
  abbrev pub HashesTo : List ℕ → List ℕ → Type 0
  HashesTo pswd key = ph.pwhash 32 pswd (take 16 (calculate_hash b garbage pswd [])) ≡ some key

  find_key-password :
      (w : CipherWidget) (key : List ℕ)
      → w.use_keys ≡ false
      → 3 ≤ length w.pswd
      → HashesTo w.pswd key
      → find_key b58 m b ph stream fresh garbage random stack w
        ≡ ok (found (some (region key no_access)))
  unfolding find_key get_cipher_key_from_password
  find_key-password w key off long hashed =
      let not_empty : (length w.pswd == 0) ≡ false = ground (arith, long) in
      let not_short : ltb (length w.pswd) 3 ≡ false = le→not_ltb (length w.pswd) 3 long in
      rw
        (
          off,
          not_empty,
          not_short,
          get_cipher_key_from_password,
          hashed,
          m.noaccess_lem (region key read_write),
        )
        refl

  start-find_key :
      (w : CipherWidget) (key : CipherKey)
      → find_key b58 m b ph stream fresh garbage random stack w ≡ ok (found (some key))
      → start b58 m b ph stream fresh garbage random stack w
        ≡ start_with b58 m b ph stream fresh garbage random stack (some key) w
  unfolding start
  start-find_key w key e = rw (start, e) refl

  -- A tab that finds a key for the encryption and then one that finds its bytes for the decryption.
  pub start-start_found :
      (w v : CipherWidget) (bytes : List ℕ) (key : CipherKey) (access : Access)
      → find_key b58 m b ph stream fresh garbage random stack w ≡ ok (found (some key))
      → ((files : FileSystem)
          → find_key b58 m b ph stream fresh garbage random stack (record v { files = files })
            ≡ ok (found (some (region key.bytes access))))
      → w.encryption_mode ≡ true
      → v.encryption_mode ≡ false
      → v.decryption_mode ≡ true
      → v.source_file ≡ w.target_file
      → w.files.contents w.source_file ≡ some bytes
      → w.files.writable w.target_file ≡ true
      → w.files.writable v.target_file ≡ true
      → w.target_file ≢ w.source_file
      → w.target_file ≢ v.target_file
      → length stack ≡ 24
      → (encrypted final : CipherWidget) × (start b58 m b ph stream fresh garbage random stack w
          ≡ ok encrypted)
        × (encrypted.status ≡ "Source file successfully encrypted.")
        × (start b58 m b ph stream fresh garbage random stack (record v { files = encrypted.files })
            ≡ ok final)
        × (final.status ≡ "Source file successfully decrypted.")
        × (final.files.contents v.target_file ≡ some bytes)
  unfolding start_with try_decrypt with_key
  start-start_found w v bytes key access finds finds' mode not_enc mode' at_source there writable
        writable' apart ne l =
      let (enc, dec, run, run', back) =
        decrypt_file-encrypt_file_any m stream random stack bytes w.files v.target_file
          w.target_file w.source_file key access there writable writable' apart ne l in
      let run'' : decrypt_file m stream stack enc v.target_file v.source_file
            (region key.bytes access)
          ≡ ok (record { done = true; files = dec; key = region key.bytes no_access }) =
        ap
          (λ (x : FileName).
            decrypt_file m stream stack enc v.target_file x (region key.bytes access))
          at_source
        ∙ run' in
      (
        record w { files = enc; status = "Source file successfully encrypted." },
        record v { files = dec; status = "Source file successfully decrypted." },
        start-find_key w key finds ∙ if_true w.encryption_mode _ _ mode ∙ rw run refl,
        refl,
        start-find_key (record v { files = enc }) (region key.bytes access) (finds' enc)
            ∙ if_false v.encryption_mode _ _ not_enc
            ∙ if_true v.decryption_mode _ _ mode'
            ∙ rw run'' refl,
        refl,
        back,
      )

  -- A text that decodes to a key of 32 bytes, where a new key has 32 bytes.
  pub find_key-text :
      (w : CipherWidget) (text : String) (key : List ℕ)
      → w.use_keys ≡ true
      → (if w.encryption_mode then w.enc_key else w.dec_key) ≡ text
      → b58.decode text ≡ some key
      → length key ≡ 32
      → length fresh ≡ 32
      → find_key b58 m b ph stream fresh garbage random stack w
        ≡ ok (found (some (region key read_write)))
  unfolding find_key
  find_key-text w text key on chosen decoded l l' =
      let copied : copy_to fresh 0 key ≡ ok key = copy_to-end [] fresh key (omega (arith, l, l')) in
      rw (on, find_key, chosen, decoded, copied) refl

  -- A tab in the encryption mode and then one in the decryption mode, on the files that the
  -- first one leaves, with the same password of at least 3 bytes that can be hashed, and the
  -- target of the first as the source of the second: if the source exists, the two targets can
  -- be opened, the first target is neither the first source nor the second target, and the header array has its 24 bytes, `start` of both ends
  -- without a fault and with the text of success, and the second target holds the bytes of the
  -- first source, of whatever length.
  pub start-start :
      (w v : CipherWidget) (bytes key : List ℕ)
      → w.use_keys ≡ false
      → v.use_keys ≡ false
      → w.pswd ≡ v.pswd
      → 3 ≤ length w.pswd
      → HashesTo w.pswd key
      → w.encryption_mode ≡ true
      → v.encryption_mode ≡ false
      → v.decryption_mode ≡ true
      → v.source_file ≡ w.target_file
      → w.files.contents w.source_file ≡ some bytes
      → w.files.writable w.target_file ≡ true
      → w.files.writable v.target_file ≡ true
      → w.target_file ≢ w.source_file
      → w.target_file ≢ v.target_file
      → length stack ≡ 24
      → (encrypted final : CipherWidget) × (start b58 m b ph stream fresh garbage random stack w
          ≡ ok encrypted)
        × (encrypted.status ≡ "Source file successfully encrypted.")
        × (start b58 m b ph stream fresh garbage random stack (record v { files = encrypted.files })
            ≡ ok final)
        × (final.status ≡ "Source file successfully decrypted.")
        × (final.files.contents v.target_file ≡ some bytes)
  start-start w v bytes key off off' same long hashed mode not_enc mode' at_source there writable
        writable' apart ne l =
      let long' : 3 ≤ length v.pswd = subst (λ (x : List ℕ). 3 ≤ length x) same long in
      let hashed' : HashesTo v.pswd key = subst (λ (x : List ℕ). HashesTo x key) same hashed in
      start-start_found w v bytes (region key no_access) no_access
        (find_key-password w key off long hashed)
        (λ files. find_key-password (record v { files = files }) key off' long' hashed') mode
        not_enc mode' at_source there writable writable' apart ne l
