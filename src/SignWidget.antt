-- ===== src/SignWidget.antt =====
-- qt/src/signwidget.cpp: the tab that signs and verifies messages and files. The state is what the
-- controls show and whether they can be used; a click on a control that is disabled does nothing.
pub mod Events
pub mod Rows
pub mod Reach
pub mod RoundTrip
pub mod FileMode
use Prim.Native.String.{String}
use text.Mathlib.Text.{◌==◌ as str_eq}
use cscrypto.Base.{
  ℕ, Bool, true, false, Option, none, some, List, [], ◌∷◌, ◌++◌, ◌==◌, if◌then◌else◌, length, map,
  set, Outcome, ok, fault, ◌>>=◌, copy_to, from_option,
}
use cscrypto.Base58.{Base58}
use cscrypto.Blake2.{Blake2}
use cscrypto.Cipher.{resize}
use cscrypto.Sodium.Memory.{Region, SodiumMemory}
use cscrypto.Sodium.Sign.{SodiumSign}
use cscrypto.KeyListModel.{
  KeyPair, key_pair, KeyListModel, ModelIndex, row_count, data_at, get_key_pair, put_back,
}
use cscrypto.MainCryptoFunctions.{
  public_key_size, signature_size, calculate_hash, generate_signature, verify_signature,
}

-- `message` and `file_hash` are the bytes of the text; `sign_enabled`, `verify_enabled` and
-- `choose_enabled` belong to the buttons, `oks` to the Ok buttons of the dialogs opened so far.
pub record SignWidget : Type 0 where
  pub keys : KeyListModel
  pub current_index : ModelIndex
  pub operating_key : String
  pub operating_key_read_only : Bool
  pub message : List ℕ
  pub message_shown : Bool
  pub signature : String
  pub signature_read_only : Bool
  pub load_file_shown : Bool
  pub file_name : String
  pub file_hash : List ℕ
  pub file_mode : Bool
  pub sign_enabled : Bool
  pub verify_enabled : Bool
  pub choose_enabled : Bool
  pub oks : List Bool
  pub status : String

abbrev pub to_status_bar : String → SignWidget → SignWidget
to_status_bar text w = record w { status = text }

-- The signals `enableSigning`, `canSign`, `canVerify` and `canSetSigningKey` reach the controls they
-- are connected to; nothing is connected to `enableVerification`.
unfoldable pub enable_signing : Bool → SignWidget → SignWidget
enable_signing on w = record w {
  choose_enabled = on;
  signature_read_only = on;
  operating_key_read_only = on;
}

unfoldable pub can_sign : Bool → SignWidget → SignWidget
can_sign on w = record w { sign_enabled = on }

unfoldable pub can_verify : Bool → SignWidget → SignWidget
can_verify on w = record w { verify_enabled = on }

unfoldable pub can_set_signing_key : Bool → SignWidget → SignWidget
can_set_signing_key on w = record w { oks = map (λ old. on) w.oks }

unfoldable pub activate_sign_mode : SignWidget → SignWidget
activate_sign_mode w = can_verify false (
    enable_signing true (
      to_status_bar
        (if row_count w.keys == 0
          then "Sign mode activated. No private keys! Generate first!"
          else "Sign mode activated.")
        (record w { operating_key = ""; signature = "" })))

unfoldable pub insert_verification_key : SignWidget → SignWidget
insert_verification_key w =
    can_verify true (record w { operating_key = "Insert public key to verify signature..." })

unfoldable pub activate_verification_mode : SignWidget → SignWidget
activate_verification_mode w = insert_verification_key (
    can_verify true
      (can_sign false (enable_signing false (to_status_bar "Verification mode activated." w))))

-- The values of `Qt::CheckState`.
pub data CheckState : Type 0 where
  unchecked partially_checked checked : CheckState

unfoldable pub activate_file_mode : CheckState → SignWidget → SignWidget
activate_file_mode unchecked w = record w {
  message_shown = true;
  load_file_shown = false;
  file_mode = false;
  status = "File mode deactivated. Type message to sign/verify.";
}
activate_file_mode checked w = record w {
  message_shown = false;
  load_file_shown = true;
  file_mode = true;
  status = "File mode activated. Load file to sign/verify.";
}
activate_file_mode partially_checked w = w

-- The dialog is not modal: it is one more Ok button, which is disabled at first.
unfoldable pub choose_signing_key : SignWidget → SignWidget
choose_signing_key w = if row_count w.keys == 0 then w else record w { oks = w.oks ++ (false ∷ []) }

unfoldable pub signing_key_chosen : SignWidget → SignWidget
signing_key_chosen w = can_set_signing_key true w

-- `QVariant().toString()` is empty.
abbrev pub to_string : Option String → String
to_string none = ""
to_string (some text) = text

unfoldable pub set_signing_key : Base58 → SignWidget → SignWidget
set_signing_key b w = can_sign true (record w {
  operating_key = to_string (data_at b w.keys w.current_index);
  status = "New operating key has been selected.";
})

-- The file that is chosen: its name, which is empty if the dialog was cancelled, and its contents
-- if it can be opened. `garbage` is what the uninitialised hash holds.
unfoldable pub load_data_from_file :
    Blake2 → (garbage : List ℕ) → String → Option (List ℕ) → SignWidget → Outcome SignWidget
load_data_from_file k garbage name none w =
    ok (
      to_status_bar (if str_eq name "" then "File was not selected!" else "Unable to open file!") w)
load_data_from_file k garbage name (some data_bytes) w =
    if str_eq name "" then ok (to_status_bar "File was not selected!" w) else (do
      let hash = calculate_hash k garbage data_bytes []
      let file_hash = resize w.file_hash (length hash)
      hash' ← copy_to hash 0 file_hash
      ok (record w { file_hash = file_hash; status = "File was loaded!"; file_name = name }))

-- What is signed or verified.
unfoldable pub chosen_message : SignWidget → List ℕ
chosen_message w = if w.file_mode then w.file_hash else w.message

module _ (b : Base58) (m : SodiumMemory) (s : SodiumSign) where
  -- `signMsg`; a private key that is NULL is read all the same.
  unfoldable pub sign_msg : (garbage : List ℕ) → SignWidget → Outcome SignWidget
  sign_msg garbage w =
      let msg = chosen_message w in
      if length msg == 0 then ok (to_status_bar "Signing message is empty! Type it." w) else (do
        let pair = get_key_pair garbage w.keys w.current_index
        sk ← from_option pair.private_key
        (signature, sk') ← generate_signature m s sk msg
        ok (record w {
          keys = put_back w.current_index (key_pair pair.public_key (some sk')) w.keys;
          signature = b.encode signature;
          status = "Message signed. New signature has been generated.";
        }))

-- `DecodeBase58` and the test of the size.
unfoldable pub decode_sized : Base58 → ℕ → String → Option (List ℕ)
decode_sized b size text = elim (b.decode text) [
  | none ↦ none
  | some bytes ↦ if length bytes == size then some bytes else none
]

-- What `verifySignature` shows once the signature and the message are there.
unfoldable pub verdict : Base58 → SodiumSign → (signature key : String) → List ℕ → String
verdict b s signature key msg = elim (decode_sized b signature_size signature) [
  | none ↦ "Incorrect signature!"
  | some sig_bytes ↦ elim (decode_sized b public_key_size key) [
    | none ↦ "Incorrect signature!"
    | some key_bytes ↦
        if verify_signature s sig_bytes key_bytes msg
        then "Correct signature!"
        else "Incorrect signature!"
  ]
]

-- The texts that `verifySignature` shows: the branch for a missing public key goes on.
unfoldable pub verify_texts : Base58 → SodiumSign → (signature key : String) → List ℕ → List String
verify_texts b s signature key msg =
    if str_eq signature ""
    then "No singature to verify! Insert signature first!" ∷ []
    else (if length msg == 0
        then "Message is empty! Nothing to verify!" ∷ []
        else (if str_eq key ""
            then "No public key provided! Insert verification key firts!" ∷ []
            else [])
          ++ (verdict b s signature key msg ∷ []))

unfoldable pub show_all : List String → SignWidget → SignWidget
show_all [] w = w
show_all (text ∷ texts) w = show_all texts (to_status_bar text w)

unfoldable pub verify_signature_slot : Base58 → SodiumSign → SignWidget → SignWidget
verify_signature_slot b s w =
    show_all (verify_texts b s w.signature w.operating_key (chosen_message w)) w
