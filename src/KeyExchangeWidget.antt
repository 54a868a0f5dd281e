-- ===== src/KeyExchangeWidget.antt =====
-- qt/src/keyexchangewidget.cpp: the tab that asks for session keys, opens a server for such requests,
-- and hands the keys that both give to the tab for files.
pub mod Events
pub mod Ready
pub mod Reach
pub mod Files
use Prim.Native.String.{String}
use text.Mathlib.Text.{◌==◌ as str_eq}
use cscrypto.Base.{ℕ, Bool, true, false, Option, none, some, List, [], ◌∷◌, ◌++◌, if◌then◌else◌}
use cscrypto.Base58.{Base58}
use cscrypto.KeyListModel.{KeyPair, KeyListModel, ModelIndex, data_at, get_key_pair}
use cscrypto.SignWidget.{to_string}
use cscrypto.StorageWidget.Rows.{PublicKeyRow}
use cscrypto.Texts.{glue}

-- `can_enable` is the member `canEnableIncomingConnections_`; `request_enabled` and `server_enabled`
-- belong to the two buttons. `requests` and `servers` are the calls of `network_` so far, `boxes` the
-- message boxes with their texts.
pub record KeyExchangeWidget : Type 0 where
  pub own_keys : KeyListModel
  pub current_index : ModelIndex
  pub own_label : String
  pub imported_label : String
  pub own_key_ok : Bool
  pub imported_key : String
  pub imported_key_ok : Bool
  pub can_enable : Bool
  pub request_enabled : Bool
  pub server_enabled : Bool
  pub host_name : String
  pub dialog_open : Bool
  pub requests : List (String × KeyPair)
  pub servers : List KeyPair
  pub encryption_keys : List String
  pub decryption_keys : List String
  pub boxes : List String
  pub status : String

abbrev pub to_status_bar : String → KeyExchangeWidget → KeyExchangeWidget
to_status_bar text w = record w { status = text }

-- What the `SELECT` with the typed text gives: `none` if it fails, or the rows it finds.
unfoldable pub inspect_key_id_text :
    Option (List PublicKeyRow) → KeyExchangeWidget → KeyExchangeWidget
inspect_key_id_text (some (row ∷ rows)) w = record w {
  imported_key = row.imported_key;
  status = "New imported key for exchange has been selected.";
  imported_key_ok = true;
  imported_label = glue "Imported key: " row.imported_key;
  request_enabled = if w.own_key_ok then true else w.request_enabled;
}
inspect_key_id_text _ w = record w {
  status = "Incorrect imported key id!";
  imported_key_ok = false;
  imported_label = "Imported key: not selected";
  request_enabled = false;
}

unfoldable pub set_own_key : Base58 → KeyExchangeWidget → KeyExchangeWidget
set_own_key b w = record w {
  own_label = glue "Own key: " (to_string (data_at b w.own_keys w.current_index));
  status = "New own key for key exchange has been selected.";
  own_key_ok = true;
  server_enabled = if w.can_enable then true else w.server_enabled;
  can_enable = false;
  request_enabled = if w.imported_key_ok then true else w.request_enabled;
}

-- The dialog is modal: until it is closed only its own controls can be used.
unfoldable pub host_name_enter_dialog : KeyExchangeWidget → KeyExchangeWidget
host_name_enter_dialog w = record w { host_name = ""; dialog_open = true }

unfoldable pub set_host_name : String → KeyExchangeWidget → KeyExchangeWidget
set_host_name text w = record w { host_name = text }

-- `garbage` is what the uninitialised public key of `KeyPair()` holds.
unfoldable pub send_key_exchange_request :
    (garbage : List ℕ) → KeyExchangeWidget → KeyExchangeWidget
send_key_exchange_request garbage w =
    if str_eq w.host_name ""
    then to_status_bar "Host name is empty. Connection will not be established!" w
    else record w {
      requests =
          w.requests ++ ((w.host_name, get_key_pair garbage w.own_keys w.current_index) ∷ []);
    }

unfoldable pub enable_incoming_connections :
    (garbage : List ℕ) → KeyExchangeWidget → KeyExchangeWidget
enable_incoming_connections garbage w = record w {
  server_enabled = false;
  servers = w.servers ++ (get_key_pair garbage w.own_keys w.current_index ∷ []);
}

unfoldable pub network_message_handler : String → KeyExchangeWidget → KeyExchangeWidget
network_message_handler text w = to_status_bar text w

-- The rows of a `QStringListModel` after `insertRow` at the end and `setData`; `inserted` is what
-- `insertRow` returns.
unfoldable pub insert_key : (inserted : Bool) → String → List String → List String
insert_key inserted key rows = if inserted then rows ++ (key ∷ []) else rows

unfoldable pub new_keys_handler :
    (inserted inserted' : Bool) (send_sk receive_sk : String)
    → KeyExchangeWidget
    → KeyExchangeWidget
new_keys_handler inserted inserted' send_sk receive_sk w = record w {
  boxes =
      w.boxes
      ++ (glue "Send secret key:\n"
            (glue send_sk (glue "\n" (glue "Receive secret key:\n" receive_sk)))
          ∷ []);
  encryption_keys = insert_key inserted send_sk w.encryption_keys;
  decryption_keys = insert_key inserted' receive_sk w.decryption_keys;
  status =
      if inserted'
      then if inserted then w.status else "Error: can't add new common encryption key!"
      else "Error: can't add new common decryption key!";
}
