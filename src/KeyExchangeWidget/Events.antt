-- ===== src/KeyExchangeWidget/Events.antt =====
-- What a user and the network do with the tab, event by event, and the construction of the widget.
use Prim.Native.String.{String}
use cscrypto.Base.{
  ℕ, Bool, true, false, not, ◌&&◌, Option, none, some, List, [], ◌∷◌, ltb, if◌then◌else◌, length,
}
use cscrypto.Base58.{Base58}
use cscrypto.Sodium.Memory.{region, no_access}
use cscrypto.KeyListModel.{KeyListModel, key_pair, add_key_pair}
use cscrypto.StorageWidget.Rows.{PublicKeyRow}
use cscrypto.KeyExchangeWidget.{
  KeyExchangeWidget, inspect_key_id_text, set_own_key, host_name_enter_dialog, set_host_name,
  send_key_exchange_request, enable_incoming_connections, network_message_handler, new_keys_handler,
}

pub data Event : Type 0 where
  -- another tab adds a pair of keys to the list
  key_added : (pk sk : List ℕ) → Event
  row_clicked : ℕ → Event
  -- the text for the identifier is edited, with what the database answers
  id_edited : Option (List PublicKeyRow) → Event
  request_clicked server_clicked : Event
  -- in the dialog: a text, the button, and its closing
  host_typed : String → Event
  send_clicked dialog_closed : Event
  -- signals of the network
  network_message : String → Event
  new_keys : (inserted inserted' : Bool) (send_sk receive_sk : String) → Event

unfoldable pub initial : KeyListModel → KeyExchangeWidget
initial own_keys = record {
  own_keys = own_keys;
  current_index = none;
  own_label = "Own key: not selected";
  imported_label = "Imported key: not selected";
  own_key_ok = false;
  imported_key = "";
  imported_key_ok = false;
  can_enable = true;
  request_enabled = false;
  server_enabled = false;
  host_name = "";
  dialog_open = false;
  requests = [];
  servers = [];
  encryption_keys = [];
  decryption_keys = [];
  boxes = [];
  status = "";
}

module _ (b : Base58) (garbage : List ℕ) where
  unfoldable pub step : Event → KeyExchangeWidget → KeyExchangeWidget
  step (key_added pk sk) w = record w {
    own_keys = add_key_pair (key_pair pk (some (region sk no_access))) w.own_keys;
  }
  step (row_clicked row) w =
      if not w.dialog_open && ltb row (length w.own_keys)
      then set_own_key b (record w { current_index = some row })
      else w
  step (id_edited found) w = if w.dialog_open then w else inspect_key_id_text found w
  step request_clicked w =
      if not w.dialog_open && w.request_enabled then host_name_enter_dialog w else w
  step server_clicked w =
      if not w.dialog_open && w.server_enabled then enable_incoming_connections garbage w else w
  step (host_typed text) w = if w.dialog_open then set_host_name text w else w
  step send_clicked w =
      if w.dialog_open
      then record (send_key_exchange_request garbage w) { dialog_open = false }
      else w
  step dialog_closed w = record w { dialog_open = false }
  step (network_message text) w = network_message_handler text w
  step (new_keys inserted inserted' send_sk receive_sk) w =
      new_keys_handler inserted inserted' send_sk receive_sk w

  unfoldable pub run_events : List Event → KeyExchangeWidget → KeyExchangeWidget
  run_events [] w = w
  run_events (e ∷ es) w = run_events es (step e w)
