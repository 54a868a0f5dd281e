-- ===== src/KeyGenWidget/Files.antt =====
-- Pairs of keys in files: two lines with the Base58 texts of the public and the private key, the
-- latter encrypted or not.
use Prim.Native.String.{String}
use text.Mathlib.Text.{◌==◌ as str_eq}
use cscrypto.Base.{
  ℕ, Bool, true, false, not, ◌&&◌, Option, none, some, List, [], ◌∷◌, ◌==◌, ltb, if◌then◌else◌,
  length, Outcome, ok, ◌>>=◌, from_option,
}
use cscrypto.Base58.{Base58}
use cscrypto.Texts.{glue, read_line}
use cscrypto.Sodium.Memory.{Region, region, no_access, SodiumMemory}
use cscrypto.Sodium.Sign.{SodiumSign}
use cscrypto.Sodium.Aead.{SodiumAead, SodiumPwhash}
use cscrypto.KeyListModel.{put_back, KeyPair, key_pair, add_key_pair, get_key_pair}
use cscrypto.MainCryptoFunctions.{private_key_size, with_access, get_matching_public}
use cscrypto.PrivateKey.Encrypted.{read_encrypted_region, get_encrypted_region}
use cscrypto.KeyGenWidget.{KeyGenWidget, to_status_bar}

-- `==` of two vectors.
abbrev pub bytes_eq : List ℕ → List ℕ → Bool
bytes_eq [] [] = true
bytes_eq [] (y ∷ ys) = false
bytes_eq (x ∷ xs) [] = false
bytes_eq (x ∷ xs) (y ∷ ys) = x == y && bytes_eq xs ys

abbrev pub min_pswd_size : ℕ
min_pswd_size = 3

module _ (b : Base58) (m : SodiumMemory) where
  -- The state with the private key of the chosen pair as a function left it.
  abbrev after_access : KeyPair → Region → KeyGenWidget → KeyGenWidget
  after_access pair sk w = record w {
    keys = put_back w.current_index (key_pair pair.public_key (some sk)) w.keys;
  }

  -- The text in the message box, if there is one.
  unfoldable pub show_private :
      (garbage : List ℕ) → KeyGenWidget → Outcome (Option String × KeyGenWidget)
  show_private garbage w =
      let pair = get_key_pair garbage w.keys w.current_index in
      elim pair.private_key [
        | none ↦ ok (none, to_status_bar "Error! No private key!" w)
        | some sk ↦ do
          (text, sk') ← with_access m sk b.encode
          ok (some text, after_access pair sk' w)
      ]

  -- Beside the state, what is written to the file. A private key that is NULL is read all the same.
  unfoldable pub dump_keys_clear :
      (garbage : List ℕ) (opens : Bool) → KeyGenWidget → Outcome (Option String × KeyGenWidget)
  dump_keys_clear garbage false w = ok (none, to_status_bar "File to dump keys was not opened!" w)
  dump_keys_clear garbage true w =
      let pair = get_key_pair garbage w.keys w.current_index in
      do
        sk ← from_option pair.private_key
        (text, sk') ← with_access m sk b.encode
        ok (
          some (glue (glue (b.encode pair.public_key) "\n") text),
          to_status_bar "Keys have been saved to file. Private key unencrypted!"
              (after_access pair sk' w),
        )

  module _ (aead : SodiumAead) (ph : SodiumPwhash) where
    -- The private key as it is written, and what the status bar says.
    unfoldable pub dumped : (nonce password : List ℕ) → Region → Outcome (String × Region × String)
    dumped nonce password sk =
        if length password == 0
        then (do
          (text, sk') ← with_access m sk b.encode
          ok (text, sk', "Keys have been saved to file. Password empty! Private key unencrypted!"))
        else (do
          (bytes, sk') ← get_encrypted_region aead ph m nonce password sk
          ok (b.encode bytes, sk', "Keys have been saved to file. Private key encrypted."))

    unfoldable pub dump_keys_encrypted :
        (garbage nonce : List ℕ) (opens : Bool)
        → KeyGenWidget
        → Outcome (Option String × KeyGenWidget)
    dump_keys_encrypted garbage nonce opens w =
        if ltb (length w.password) min_pswd_size
        then ok (none, to_status_bar "Password is too short! Try another one." w)
        else (if not opens
            then ok (none, to_status_bar "File to dump keys was not opened!" w)
            else (do
              let pair = get_key_pair garbage w.keys w.current_index
              sk ← from_option pair.private_key
              (text, sk', said) ← dumped nonce w.password sk
              ok (
                some (glue (glue (b.encode pair.public_key) "\n") text),
                to_status_bar said (after_access pair sk' w),
              )))

  module _ (s : SodiumSign) where
    -- A private key that was not encrypted.
    unfoldable pub load_clear :
        (pub_bytes priv_bytes : List ℕ) → KeyGenWidget → Outcome KeyGenWidget
    load_clear pub_bytes priv_bytes w = do
      (pk, sk) ← get_matching_public m s (region priv_bytes no_access)
      if bytes_eq pub_bytes pk
          then ok (record w {
            keys = add_key_pair (key_pair pk (some sk)) w.keys;
            status = "Loaded keys are correct. Added to your key list.";
          })
          else ok (to_status_bar "Invalid keys!" w)

    -- Both keys decoded. A longer private key asks for a password and waits for `decrypt_keys`.
    unfoldable pub load_decoded :
        (line : String) (pub_bytes priv_bytes : List ℕ) → KeyGenWidget → Outcome KeyGenWidget
    load_decoded line pub_bytes priv_bytes w =
        if ltb (length priv_bytes) private_key_size
        then ok (to_status_bar "Invalid keys!" w)
        else (if length priv_bytes == private_key_size
            then load_clear pub_bytes priv_bytes w
            else ok (record w { password = []; keys_to_decrypt = (line, priv_bytes) }))

    -- `none` is a file that was not opened.
    unfoldable pub load_keys_from_file : Option String → KeyGenWidget → Outcome KeyGenWidget
    load_keys_from_file none w = ok (to_status_bar "File to load keys from was not opened!" w)
    load_keys_from_file (some text) w =
        let (public_key, rest) = read_line text in
        let (private_key, after) = read_line rest in
        elim (b.decode public_key) [
          | none ↦ ok (to_status_bar "Invalid keys!" w)
          | some pub_bytes ↦ elim (b.decode private_key) [
            | none ↦ ok (to_status_bar "Invalid keys!" w)
            | some priv_bytes ↦ load_decoded public_key pub_bytes priv_bytes w
          ]
        ]

    unfoldable pub add_decrypted : Region → KeyGenWidget → Outcome KeyGenWidget
    add_decrypted key w = do
      (pk, sk) ← get_matching_public m s key
      if str_eq w.keys_to_decrypt.0 (b.encode pk)
          then ok (record w {
            keys = add_key_pair (key_pair pk (some sk)) w.keys;
            status = "Keys loaded successfully.";
          })
          else ok (to_status_bar "Incorrect key pair!" w)

    unfoldable pub decrypt_keys : SodiumAead → SodiumPwhash → KeyGenWidget → Outcome KeyGenWidget
    decrypt_keys aead ph w =
        if length w.password == 0
        then ok (to_status_bar "Password is empty!" w)
        else read_encrypted_region aead ph w.keys_to_decrypt.1 w.password >>= (λ key. elim key [
          | none ↦ ok (to_status_bar "Wrong password or corrupted file!" w)
          | some sk ↦ add_decrypted sk w
        ])
