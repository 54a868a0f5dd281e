-- ===== src/KeyGenWidget/KeyFile.antt =====
-- Pairs of keys that are dumped to a file and loaded again.
use Prim.Native.String.{String}
use text.Mathlib.TextPositions.{eq_refl}
use cscrypto.Base.{
  ℕ, ◌≤◌, ◌≡◌, refl, ap, ◌∙◌, true, false, some, List, [], ◌∷◌, ◌++◌, arith, length, ◌==◌, ltb,
  le→not_ltb, take-append_at, drop-append_at, length-append, ok,
}
use cscrypto.Base58.{Base58}
use cscrypto.Texts.{glue, glue_assoc, read_line, read_line-glue, read_line-all}
use cscrypto.Sodium.Memory.{Access, region, no_access, SodiumMemory}
use cscrypto.Sodium.Sign.{SodiumSign}
use cscrypto.Sodium.Aead.{SodiumAead, SodiumPwhash}
use cscrypto.KeyListModel.{key_pair, add_key_pair, get_key_pair, put_back}
use cscrypto.MainCryptoFunctions.{with_access_lem, get_matching_public}
use cscrypto.PrivateKey.Encrypted.{
  read_encrypted_region, get_encrypted_region, get_key_from_password, open_encrypted, sealed,
}
use cscrypto.PrivateKey.Opened.{sealed-append}
use cscrypto.KeyGenWidget.{KeyGenWidget}
use cscrypto.KeyGenWidget.Files.{
  bytes_eq, dump_keys_clear, dump_keys_encrypted, dumped, load_clear, load_decoded,
  load_keys_from_file, add_decrypted, decrypt_keys,
}

bytes_eq_self : (xs : List ℕ) → bytes_eq xs xs ≡ true
bytes_eq_self [] = refl
bytes_eq_self (x ∷ xs) = ground (arith, bytes_eq_self xs)

module _ (b : Base58) (m : SodiumMemory) (s : SodiumSign) where
  -- The file with the Base58 texts of two byte strings.
  abbrev pub key_file : (first second : List ℕ) → String
  key_file first second = glue (glue (b.encode first) "\n") (b.encode second)

  load_keys_from_file-key_file :
      (pk bytes : List ℕ) (w : KeyGenWidget)
      → load_keys_from_file b m s (some (key_file pk bytes)) w
        ≡ load_decoded b m s (b.encode pk) pk bytes w
  unfolding load_keys_from_file
  load_keys_from_file-key_file pk bytes w =
      let first : read_line (key_file pk bytes) ≡ (b.encode pk, b.encode bytes) =
        ap read_line (glue_assoc (b.encode pk) "\n" (b.encode bytes))
        ∙ read_line-glue (b.encode pk) (b.encode bytes) (b.encode-has_no_space pk) in
      let second = read_line-all (b.encode bytes) (b.encode-has_no_space bytes) in
      rw
        (
          load_keys_from_file,
          first,
          b.decode-encode pk,
          first,
          second,
          b.decode-encode bytes,
          first,
        )
        refl

  dump_keys_clear-key_file :
      (garbage : List ℕ) (w : KeyGenWidget) (pk sk : List ℕ) (a : Access)
      → get_key_pair garbage w.keys w.current_index ≡ key_pair pk (some (region sk a))
      → dump_keys_clear b m garbage true w
        ≡ ok (
          some (key_file pk sk),
          record w {
            keys = put_back w.current_index (key_pair pk (some (region sk no_access))) w.keys;
            status = "Keys have been saved to file. Private key unencrypted!";
          },
        )
  unfolding dump_keys_clear
  dump_keys_clear-key_file garbage w pk sk a selected =
      simp (selected, with_access_lem m (region sk a) b.encode)

  -- A selected pair of keys, whose public key belongs to its private key of 64 bytes: what `DumpKeysClear` writes to
  -- a file that opens, `loadKeysFromFile` adds to the list of the tab of any session as the same
  -- pair, with the private key locked. Nothing faults.
  pub load_keys_from_file-dump_keys_clear :
      (garbage : List ℕ) (w session : KeyGenWidget) (sk : List ℕ) (a : Access)
      → get_key_pair garbage w.keys w.current_index ≡ key_pair (s.sk_to_pk sk) (some (region sk a))
      → length sk ≡ 64
      → (text : String) × (after loaded : KeyGenWidget) × (dump_keys_clear b m garbage true w
          ≡ ok (some text, after))
        × (load_keys_from_file b m s (some text) session ≡ ok loaded)
        × (loaded.keys
            ≡ add_key_pair (key_pair (s.sk_to_pk sk) (some (region sk no_access))) session.keys)
  unfolding load_decoded load_clear get_matching_public
  load_keys_from_file-dump_keys_clear garbage w session sk a selected l =
      let pk = s.sk_to_pk sk in
      let not_short : ltb (length sk) 64 ≡ false = le→not_ltb (length sk) 64 (omega (arith, l)) in
      let right_size : (length sk == 64) ≡ true = ground (arith, l) in
      (
        key_file pk sk,
        _,
        record session {
          keys = add_key_pair (key_pair pk (some (region sk no_access))) session.keys;
          status = "Loaded keys are correct. Added to your key list.";
        },
        dump_keys_clear-key_file garbage w pk sk a selected,
        load_keys_from_file-key_file pk sk session
            ∙ rw
                (
                  not_short,
                  right_size,
                  with_access_lem m (region sk no_access) s.sk_to_pk,
                  bytes_eq_self pk,
                )
                refl,
        refl,
      )

module _ (aead : SodiumAead) (ph : SodiumPwhash) (m : SodiumMemory) where
  -- A key of 64 bytes under a password.
  pub read_encrypted_region-get_encrypted_region :
      (nonce passwd key sk : List ℕ) (a : Access)
      → get_key_from_password ph passwd ≡ some key
      → length nonce ≡ 8
      → length sk ≡ 64
      → (bytes : List ℕ) × (get_encrypted_region aead ph m nonce passwd (region sk a)
          ≡ ok (bytes, region sk no_access))
        × (length bytes ≡ 88)
        × (read_encrypted_region aead ph bytes passwd ≡ ok (some (region sk no_access)))
  unfolding get_encrypted_region read_encrypted_region open_encrypted
  read_encrypted_region-get_encrypted_region nonce passwd key sk a hashed l l' =
      let (cipher, encrypted, size, decrypted) = aead.encrypt_lem sk nonce key in
      let total = length-append nonce cipher in
      let enough : ltb (length (nonce ++ cipher)) 8 ≡ false =
        le→not_ltb _ 8 (omega (arith, total, l)) in
      let room : ltb 80 (length cipher) ≡ false =
        le→not_ltb 80 (length cipher) (omega (arith, size, l')) in
      let right_size : (length sk == 64) ≡ true = ground (arith, l') in
      (
        nonce ++ cipher,
        rw
            (
              hashed,
              with_access_lem m (region sk a) (sealed aead nonce key),
              sealed-append aead nonce key sk cipher l encrypted,
            )
            refl,
        omega (arith, total, size, l, l'),
        rw
            (
              enough,
              hashed,
              take-append_at 8 nonce cipher l,
              drop-append_at 8 nonce cipher l,
              open_encrypted,
              room,
              decrypted,
              right_size,
            )
            refl,
      )

module _ (b : Base58) (m : SodiumMemory) (s : SodiumSign) (aead : SodiumAead)
    (ph : SodiumPwhash) where
  -- A selected pair of keys, whose public key belongs to its private key of 64 bytes, and a password
  -- of at least 3 bytes that can be hashed: from what `DumpKeysEncrypted` writes to a file that opens,
  -- `loadKeysFromFile` in the tab of any session keeps a text to decrypt, and `decryptKeys` with the
  -- same password adds the same pair to the list, with the private key locked. Nothing faults.
  pub decrypt_keys-dump_keys_encrypted :
      (garbage nonce key : List ℕ) (w session : KeyGenWidget) (sk : List ℕ) (a : Access)
      → get_key_pair garbage w.keys w.current_index ≡ key_pair (s.sk_to_pk sk) (some (region sk a))
      → length sk ≡ 64
      → length nonce ≡ 8
      → 3 ≤ length w.password
      → get_key_from_password ph w.password ≡ some key
      → (text : String) × (after loaded final : KeyGenWidget) × (dump_keys_encrypted b m aead ph
            garbage nonce true w
          ≡ ok (some text, after))
        × (load_keys_from_file b m s (some text) session ≡ ok loaded)
        × (decrypt_keys b m s aead ph (record loaded { password = w.password }) ≡ ok final)
        × (final.keys
            ≡ add_key_pair (key_pair (s.sk_to_pk sk) (some (region sk no_access))) session.keys)
  unfolding dump_keys_encrypted dumped load_decoded decrypt_keys add_decrypted get_matching_public
  decrypt_keys-dump_keys_encrypted garbage nonce key w session sk a selected l l' long hashed =
      let pk = s.sk_to_pk sk in
      let (bytes, encrypted, size, opened) =
        read_encrypted_region-get_encrypted_region aead ph m nonce w.password key sk a hashed l'
          l in
      let long_enough : ltb (length w.password) 3 ≡ false = le→not_ltb (length w.password) 3 long in
      let not_empty : (length w.password == 0) ≡ false = ground (arith, long) in
      let not_short : ltb (length bytes) 64 ≡ false =
        le→not_ltb (length bytes) 64 (omega (arith, size)) in
      let longer : (length bytes == 64) ≡ false = ground (arith, size) in
      let loaded : KeyGenWidget = record session {
        password = [];
        keys_to_decrypt = (b.encode pk, bytes);
      } in
      (
        key_file b m s pk bytes,
        record w {
          keys = put_back w.current_index (key_pair pk (some (region sk no_access))) w.keys;
          status = "Keys have been saved to file. Private key encrypted.";
        },
        loaded,
        record loaded {
          password = w.password;
          keys = add_key_pair (key_pair pk (some (region sk no_access))) session.keys;
          status = "Keys loaded successfully.";
        },
        simp (long_enough, selected, not_empty, encrypted),
        load_keys_from_file-key_file b m s pk bytes session ∙ rw (not_short, longer) refl,
        rw
            (
              not_empty,
              opened,
              with_access_lem m (region sk no_access) s.sk_to_pk,
              eq_refl (b.encode pk),
            )
            refl,
        refl,
      )
