-- ===== src/CipherWidget.antt =====
-- qt/src/cipherwidget.cpp: the tab that encrypts and decrypts files. The state is what the controls show
-- and whether they can be used, with the files.
pub mod Events
pub mod Ready
pub mod Starts
pub mod Steps
pub mod Reach
pub mod RoundTrip
use Prim.Native.String.{String}
use cscrypto.Base.{
  ℕ, Bool, true, false, not, ◌&&◌, ◌||◌, Option, none, some, is_some, fault, List, [], ◌∷◌, ◌==◌,
  ltb, if◌then◌else◌, length, Outcome, ok, ◌>>=◌, copy_to, from_option,
}
use cscrypto.Base58.{Base58}
use cscrypto.Blake2.{Blake2}
use cscrypto.Cipher.{CipherKey, FileName, FileSystem, FileResult, encrypt_file, decrypt_file}
use cscrypto.Cipher.Key.{get_cipher_key_from_password}
use cscrypto.Sodium.Aead.{SodiumPwhash}
use cscrypto.Sodium.Memory.{region, no_access, read_write, SodiumMemory}
use cscrypto.Sodium.SecretStream.{SecretStream}

-- `enc_key` and `dec_key` are the current texts of the two combo boxes, `stored` the number of rows of
-- the model of the encryption keys. The check box has two states.
pub record CipherWidget : Type 0 where
  pub files : FileSystem
  pub source_file : FileName
  pub target_file : FileName
  pub source_file_loaded : Bool
  pub target_file_loaded : Bool
  pub encryption_mode : Bool
  pub decryption_mode : Bool
  pub start_enabled : Bool
  pub use_keys_enabled : Bool
  pub use_keys : Bool
  pub stored : ℕ
  pub enc_key : String
  pub dec_key : String
  pub pswd : List ℕ
  pub pswd_shown : Bool
  pub enc_shown : Bool
  pub dec_shown : Bool
  pub status : String

abbrev pub to_status_bar : String → CipherWidget → CipherWidget
to_status_bar text w = record w { status = text }

-- The text of a label where no file is loaded, as a name.
abbrev pub no_file : FileName
no_file = 0

abbrev pub min_pswd_size : ℕ
min_pswd_size = 3

-- The constructor, on these files.
unfoldable pub initial : FileSystem → CipherWidget
initial fs = record {
  files = fs;
  source_file = no_file;
  target_file = no_file;
  source_file_loaded = false;
  target_file_loaded = false;
  encryption_mode = false;
  decryption_mode = false;
  start_enabled = false;
  use_keys_enabled = false;
  use_keys = false;
  stored = 0;
  enc_key = "";
  dec_key = "";
  pswd = [];
  pswd_shown = true;
  enc_shown = false;
  dec_shown = false;
  status = "";
}

unfoldable pub has_mode : CipherWidget → Bool
has_mode w = w.encryption_mode || w.decryption_mode

-- `none` is a dialog that was cancelled.
unfoldable pub get_src_file_name : Option FileName → CipherWidget → CipherWidget
get_src_file_name none w = record w {
  source_file = no_file;
  status = "No file selected!";
  source_file_loaded = false;
  start_enabled = false;
}
get_src_file_name (some name) w = record w {
  source_file = name;
  source_file_loaded = true;
  start_enabled = if w.target_file_loaded && has_mode w then true else w.start_enabled;
}

unfoldable pub get_trg_file_name : Option FileName → CipherWidget → CipherWidget
get_trg_file_name none w = record w {
  target_file = no_file;
  status = "No file selected!";
  target_file_loaded = false;
  start_enabled = false;
}
get_trg_file_name (some name) w = record w {
  target_file = name;
  target_file_loaded = true;
  start_enabled = if w.source_file_loaded && has_mode w then true else w.start_enabled;
}

unfoldable pub analyze_use_keys_status : Bool → CipherWidget → CipherWidget
analyze_use_keys_status true w =
    if w.encryption_mode
    then record w { pswd_shown = false; enc_shown = true; dec_shown = false }
    else (if w.decryption_mode
        then record w { pswd_shown = false; enc_shown = false; dec_shown = true }
        else record w {
          pswd_shown = false;
          status = "Check mode to start encryption / decryption!";
        })
analyze_use_keys_status false w = record w {
  pswd_shown = true;
  enc_shown = false;
  dec_shown = false;
}

-- The last line of the two functions below.
unfoldable pub start_if_loaded : CipherWidget → CipherWidget
start_if_loaded w = record w {
  start_enabled = if w.target_file_loaded && w.source_file_loaded then true else w.start_enabled;
}

unfoldable pub activate_encryption_mode : CipherWidget → CipherWidget
activate_encryption_mode w = start_if_loaded (
    analyze_use_keys_status w.use_keys (record w {
      status = "Encryption mode activated.";
      encryption_mode = true;
      decryption_mode = false;
    }))

unfoldable pub activate_decryption_mode : CipherWidget → CipherWidget
activate_decryption_mode w = start_if_loaded (
    analyze_use_keys_status w.use_keys (record w {
      status = "Decryption mode activated.";
      decryption_mode = true;
      encryption_mode = false;
    }))

-- A change of the state of the check box calls `analyzeUseKeysStatus`.
unfoldable pub set_use_keys : Bool → CipherWidget → CipherWidget
set_use_keys true w =
    if w.use_keys then w else analyze_use_keys_status true (record w { use_keys = true })
set_use_keys false w =
    if w.use_keys then analyze_use_keys_status false (record w { use_keys = false }) else w

unfoldable pub update_use_keys_check_box : CipherWidget → CipherWidget
update_use_keys_check_box w =
    if ltb 0 w.stored
    then record w { use_keys_enabled = true }
    else set_use_keys false (record w { use_keys_enabled = false })

-- What `start` finds as the key: a text for the status bar, or a key whose pointer can be NULL.
pub data FoundKey : Type 0 where
  refused : String → FoundKey
  found : Option CipherKey → FoundKey

module _ (b58 : Base58) (m : SodiumMemory) (b : Blake2) (ph : SodiumPwhash) (stream : SecretStream)
    (fresh garbage random stack : List ℕ) where
  -- The decoded key is copied over the new key's memory `fresh`, whatever its size.
  unfoldable pub find_key : CipherWidget → Outcome FoundKey
  find_key w =
      if not w.use_keys
      then (if length w.pswd == 0
          then ok (refused "Password empty! Fill it to encrypt / decrypt.")
          else (if ltb (length w.pswd) min_pswd_size
              then ok (refused "Password is too short!")
              else ok (found (get_cipher_key_from_password m b ph garbage w.pswd))))
      else elim (b58.decode (if w.encryption_mode then w.enc_key else w.dec_key)) [
        | none ↦ ok (refused "Invalid keys!")
        | some key_bytes ↦ do
          key ← copy_to fresh 0 key_bytes
          ok (found (some (region key read_write)))
      ]

  -- A function on files does not touch the key unless both files could be opened; a NULL key is then
  -- a fault.
  unfoldable pub with_key :
      Option CipherKey → CipherWidget → (CipherKey → Outcome FileResult) → Outcome FileResult
  with_key (some key) w run = run key
  with_key none w run =
      if is_some (w.files.contents w.source_file) && w.files.writable w.target_file
      then fault
      else run (region [] no_access)

  -- The branches from `decryptionMode_` on.
  unfoldable pub try_decrypt : Option CipherKey → CipherWidget → Outcome CipherWidget
  try_decrypt key w =
      if w.decryption_mode
      then (do
        r ← with_key key w (decrypt_file m stream stack w.files w.target_file w.source_file)
        ok (record w {
          files = r.files;
          status =
              if r.done then "Source file successfully decrypted." else "Unsuccessfull operation!";
        }))
      else ok (to_status_bar "Unsuccessfull operation!" w)

  -- The rest of `start`.
  unfoldable pub start_with : Option CipherKey → CipherWidget → Outcome CipherWidget
  start_with key w =
      if w.encryption_mode
      then (do
        r ← with_key key w (encrypt_file m stream random w.files w.target_file w.source_file)
        if r.done
            then ok (record w { files = r.files; status = "Source file successfully encrypted." })
            else try_decrypt (some r.key) (record w { files = r.files }))
      else try_decrypt key w

  unfoldable pub start : CipherWidget → Outcome CipherWidget
  start w = do
    key ← find_key w
    elim key [
      | refused text ↦ ok (to_status_bar text w)
      | found cipher_key ↦ start_with cipher_key w
    ]
