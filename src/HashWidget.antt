-- ===== src/HashWidget.antt =====
-- qt/src/hashwidget.cpp: the tab that shows the hash of a message or a file, with or without a key. Texts
-- that are hashed are their bytes; a click on a control that is disabled does nothing.
pub mod View
pub mod Slots
pub mod Refinement
use Prim.Native.String.{String}
use text.Mathlib.Text.{◌==◌ as str_eq}
use cscrypto.Base.{ℕ, Bool, true, false, Option, none, some, List, [], ◌∷◌, if◌then◌else◌}
use cscrypto.Base58.{Base58}
use cscrypto.Blake2.{Blake2}
use cscrypto.MainCryptoFunctions.{calculate_hash}
use cscrypto.SignWidget.{CheckState, unchecked, partially_checked, checked}

-- `message_enabled`, `load_enabled`, `key_enabled` and `hash_enabled` belong to the controls.
pub record HashWidget : Type 0 where
  pub message : List ℕ
  pub hmac_key : List ℕ
  pub gen_hash : String
  pub file_name : String
  pub hashing_data : List ℕ
  pub file_mode : Bool
  pub hmac_mode : Bool
  pub message_enabled : Bool
  pub load_enabled : Bool
  pub key_enabled : Bool
  pub hash_enabled : Bool
  pub status : String

abbrev pub to_status_bar : String → HashWidget → HashWidget
to_status_bar text w = record w { status = text }

-- "Insert HMAC key..."
abbrev pub key_prompt : List ℕ
key_prompt =
    73 ∷ 110 ∷ 115 ∷ 101 ∷ 114 ∷ 116 ∷ 32 ∷ 72 ∷ 77 ∷ 65 ∷ 67 ∷ 32 ∷ 107 ∷ 101 ∷ 121 ∷ 46 ∷ 46 ∷ 46
    ∷ []

-- "Type message to hash..."
abbrev pub message_prompt : List ℕ
message_prompt =
    84 ∷ 121 ∷ 112 ∷ 101 ∷ 32 ∷ 109 ∷ 101 ∷ 115 ∷ 115 ∷ 97 ∷ 103 ∷ 101 ∷ 32 ∷ 116 ∷ 111 ∷ 32 ∷ 104
    ∷ 97 ∷ 115 ∷ 104 ∷ 46 ∷ 46 ∷ 46 ∷ []

abbrev pub hash_prompt : String
hash_prompt = "Calculated hash will be displayed here"

unfoldable pub initial : HashWidget
initial = record {
  message = message_prompt;
  hmac_key = key_prompt;
  gen_hash = hash_prompt;
  file_name = "No file loaded.";
  hashing_data = [];
  file_mode = false;
  hmac_mode = false;
  message_enabled = false;
  load_enabled = false;
  key_enabled = false;
  hash_enabled = false;
  status = "";
}

unfoldable pub activate_message_mode : HashWidget → HashWidget
activate_message_mode w = record w {
  file_mode = false;
  message_enabled = true;
  load_enabled = false;
  status = "Message mode activated. Type message to hash.";
  gen_hash = hash_prompt;
  hash_enabled = true;
}

unfoldable pub activate_file_mode : HashWidget → HashWidget
activate_file_mode w = record w {
  file_mode = true;
  load_enabled = true;
  message_enabled = false;
  status = "File mode activated. Load file to hash.";
  gen_hash = hash_prompt;
  hash_enabled = false;
  file_name = "No loaded file";
}

unfoldable pub activate_hmac : CheckState → HashWidget → HashWidget
activate_hmac checked w = record w {
  hmac_mode = true;
  status = "HMAC mode activated. You may hash data with key.";
  key_enabled = true;
  hmac_key = key_prompt;
}
activate_hmac unchecked w = record w {
  hmac_mode = false;
  status = "HMAC mode deactivated.";
  key_enabled = false;
}
activate_hmac partially_checked w = w

-- The slot `calculateHash`; `garbage` is what the uninitialised hash holds.
unfoldable pub calculate_hash_slot : Base58 → Blake2 → (garbage : List ℕ) → HashWidget → HashWidget
calculate_hash_slot b58 b garbage w =
    let bytes = if w.file_mode then w.hashing_data else w.message in
    record w {
      hashing_data = bytes;
      gen_hash =
          b58.encode (calculate_hash b garbage bytes (if w.hmac_mode then w.hmac_key else []));
      status = "Hash has been calculated.";
    }

-- The file that is chosen: its name, which is empty if the dialog was cancelled, and its contents
-- if it can be opened.
unfoldable pub load_hashing_file : String → Option (List ℕ) → HashWidget → HashWidget
load_hashing_file name none w =
    to_status_bar (if str_eq name "" then "No file chosen!" else "Unable to open file!") w
load_hashing_file name (some bytes) w =
    if str_eq name "" then to_status_bar "No file chosen!" w else record w {
      hashing_data = bytes;
      status = "File loaded.";
      file_name = name;
      hash_enabled = true;
    }

pub data Event : Type 0 where
  message_clicked file_clicked hash_clicked : Event
  hmac_box : CheckState → Event
  message_typed key_typed : List ℕ → Event
  file_chosen : String → Option (List ℕ) → Event

module _ (b58 : Base58) (b : Blake2) (garbage : List ℕ) where
  unfoldable pub step : Event → HashWidget → HashWidget
  step message_clicked w = activate_message_mode w
  step file_clicked w = activate_file_mode w
  step hash_clicked w = if w.hash_enabled then calculate_hash_slot b58 b garbage w else w
  step (hmac_box state) w = activate_hmac state w
  step (message_typed text) w = if w.message_enabled then record w { message = text } else w
  step (key_typed text) w = if w.key_enabled then record w { hmac_key = text } else w
  step (file_chosen name bytes) w = if w.load_enabled then load_hashing_file name bytes w else w

  unfoldable pub run_events : List Event → HashWidget → HashWidget
  run_events [] w = w
  run_events (e ∷ es) w = run_events es (step e w)
