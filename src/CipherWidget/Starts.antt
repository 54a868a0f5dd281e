-- ===== src/CipherWidget/Starts.antt =====
-- `start` ends without a fault, and changes only the files and the status bar.
use Prim.Native.String.{String}
use cscrypto.Base.{
  ℕ, suc, ◌≤◌, ◌≡◌, inl, inr, refl, ◌∙◌, Bool-cases, Option-cases, true, false, some, List, [],
  ◌++◌, arith, ltb, if_true, if_false, ◌==◌, if◌then◌else◌, length, take, drop, ◌⊎◌, Outcome, ok,
  copy_to-append,
}
use cscrypto.Base58.{Base58}
use cscrypto.Blake2.{Blake2}
use cscrypto.Cipher.{CipherKey, FileSystem}
use cscrypto.Cipher.Ends.{encrypt_file_lem, decrypt_file_lem}
use cscrypto.Cipher.Key.{get_cipher_key_from_password}
use cscrypto.MainCryptoFunctions.{calculate_hash}
use cscrypto.Sodium.Aead.{SodiumPwhash}
use cscrypto.Sodium.Memory.{region, read_write, SodiumMemory}
use cscrypto.Sodium.SecretStream.{SecretStream}
use cscrypto.CipherWidget.{
  CipherWidget, start, start_with, try_decrypt, with_key, find_key, refused, found,
}

-- Every password can be hashed.
abbrev pub Hashes : SodiumPwhash → Type 0
Hashes ph = (n : ℕ) (passwd salt : List ℕ) → (key : List ℕ) × (ph.pwhash n passwd salt ≡ some key)

-- A text that decodes, if it does, to the size of a key at most.
abbrev pub IsKeyText : Base58 → String → Type 0
IsKeyText b58 text = (bytes : List ℕ) → b58.decode text ≡ some bytes → length bytes ≤ 32

abbrev pub Changed : CipherWidget → Outcome CipherWidget → Type 0
Changed w result =
    (files : FileSystem) × (status : String) × (result
      ≡ ok (record w { files = files; status = status }))

module _ (b58 : Base58) (m : SodiumMemory) (b : Blake2) (ph : SodiumPwhash) (stream : SecretStream)
    (fresh garbage random stack : List ℕ) where
  try_decrypt-Changed :
      (key : CipherKey) (w : CipherWidget)
      → Changed w (try_decrypt b58 m b ph stream fresh garbage random stack (some key) w)
  unfolding try_decrypt with_key
  try_decrypt-Changed key w = elim (Bool-cases w.decryption_mode) [
    | inl on ↦
        let (r, run, _, _) =
          decrypt_file_lem m stream stack w.files w.target_file w.source_file (suc w.target_file)
            key (λ e. omega (arith, e)) in
        (
          r.files,
          if r.done then "Source file successfully decrypted." else "Unsuccessfull operation!",
          simp (on, run),
        )
    | inr off ↦ (w.files, "Unsuccessfull operation!", simp off)
  ]

  start_with-Changed :
      (key : CipherKey) (w : CipherWidget)
      → Changed w (start_with b58 m b ph stream fresh garbage random stack (some key) w)
  unfolding start_with with_key
  start_with-Changed key w = elim (Bool-cases w.encryption_mode) [
    | inl on ↦
        let (r, run, _, _, _) =
          encrypt_file_lem m stream random w.files w.target_file w.source_file (suc w.target_file)
            key (λ e. omega (arith, e)) in
        elim (Bool-cases r.done) [
          | inl done ↦ (r.files, "Source file successfully encrypted.", simp (on, run, done))
          | inr failed ↦
              let (files, status, e) = try_decrypt-Changed r.key (record w { files = r.files }) in
              (
                files,
                status,
                if_true w.encryption_mode _ _ on ∙ rw run (if_false r.done _ _ failed ∙ e),
              )
        ]
    | inr off ↦
        let (files, status, e) = try_decrypt-Changed key w in
        (files, status, if_false w.encryption_mode _ _ off ∙ e)
  ]

  -- A text for the status bar, or a key.
  abbrev Finds : CipherWidget → Type 0
  Finds w =
      ((text : String) × (find_key b58 m b ph stream fresh garbage random stack w
          ≡ ok (refused text)))
      ⊎ ((key : CipherKey) × (find_key b58 m b ph stream fresh garbage random stack w
            ≡ ok (found (some key))))

  Finds-from_password : (w : CipherWidget) → Hashes ph → w.use_keys ≡ false → Finds w
  unfolding find_key get_cipher_key_from_password
  Finds-from_password w hashes off = elim (Bool-cases (length w.pswd == 0)) [
    | inl empty ↦ inl ("Password empty! Fill it to encrypt / decrypt.", simp (off, empty))
    | inr not_empty ↦ elim (Bool-cases (ltb (length w.pswd) 3)) [
      | inl short ↦ inl ("Password is too short!", simp (off, not_empty, short))
      | inr long ↦
          let (key, hashed) = hashes 32 w.pswd (take 16 (calculate_hash b garbage w.pswd [])) in
          inr (
            m.mprotect_noaccess (region key read_write),
            rw (off, not_empty, long, get_cipher_key_from_password, hashed) refl,
          )
    ]
  ]

  Finds-from_text :
      (w : CipherWidget) (text : String)
      → length fresh ≡ 32
      → w.use_keys ≡ true
      → (if w.encryption_mode then w.enc_key else w.dec_key) ≡ text
      → IsKeyText b58 text
      → Finds w
  unfolding find_key
  Finds-from_text w text l on chosen bounded = elim (Option-cases (b58.decode text)) [
    | inl failed ↦ inl ("Invalid keys!", rw (on, find_key, chosen, failed) refl)
    | inr (bytes, decoded) ↦
        let copied = copy_to-append fresh bytes (omega (arith, l, bounded bytes decoded)) in
        inr (
          region (bytes ++ drop (length bytes) fresh) read_write,
          rw (on, find_key, chosen, decoded, copied) refl,
        )
  ]

  finds :
      (w : CipherWidget)
      → Hashes ph
      → length fresh ≡ 32
      → IsKeyText b58 w.enc_key
      → IsKeyText b58 w.dec_key
      → Finds w
  finds w hashes l enc dec = elim (Bool-cases w.use_keys) [
    | inr off ↦ Finds-from_password w hashes off
    | inl on ↦ elim (Bool-cases w.encryption_mode) [
      | inl mode ↦ Finds-from_text w w.enc_key l on (simp mode) enc
      | inr mode ↦ Finds-from_text w w.dec_key l on (simp mode) dec
    ]
  ]

  pub start-Changed :
      (w : CipherWidget)
      → Hashes ph
      → length fresh ≡ 32
      → IsKeyText b58 w.enc_key
      → IsKeyText b58 w.dec_key
      → Changed w (start b58 m b ph stream fresh garbage random stack w)
  unfolding start
  start-Changed w hashes l enc dec = elim (finds w hashes l enc dec) [
    | inl (text, e) ↦ (w.files, text, rw (start, e) refl)
    | inr (key, e) ↦
        let (files, status, run) = start_with-Changed key w in (files, status, rw (start, e) run)
  ]
