-- ===== src/SignWidget/Events.antt =====
-- What a user does with the tab, event by event, and the construction of the widget.
use Prim.Native.String.{String}
use cscrypto.Base.{
  ℕ, true, false, Option, none, some, List, [], ◌∷◌, ltb, if◌then◌else◌, length, set, get_or,
  Outcome, ok, ◌>>=◌,
}
use cscrypto.Base58.{Base58}
use cscrypto.Blake2.{Blake2}
use cscrypto.Sodium.Memory.{region, no_access, SodiumMemory}
use cscrypto.Sodium.Sign.{SodiumSign}
use cscrypto.KeyListModel.{key_pair, add_key_pair}
use cscrypto.SignWidget.{
  SignWidget, CheckState, activate_sign_mode, activate_verification_mode, activate_file_mode,
  choose_signing_key, signing_key_chosen, set_signing_key, load_data_from_file, sign_msg,
  verify_signature_slot,
}

pub data Event : Type 0 where
  -- another tab adds a pair of keys to the list
  key_added : (pk sk : List ℕ) → Event
  sign_mode verify_mode choose_key sign verify : Event
  file_box : CheckState → Event
  -- a click on a row of the list of keys, and on the Ok button of a dialog
  row_clicked ok_clicked : ℕ → Event
  message_typed : List ℕ → Event
  signature_typed key_typed : String → Event
  file_chosen : String → Option (List ℕ) → Event

-- "Type message to sign or verify..."
abbrev pub placeholder : List ℕ
placeholder =
    84 ∷ 121 ∷ 112 ∷ 101 ∷ 32 ∷ 109 ∷ 101 ∷ 115 ∷ 115 ∷ 97 ∷ 103 ∷ 101 ∷ 32 ∷ 116 ∷ 111 ∷ 32 ∷ 115
    ∷ 105 ∷ 103 ∷ 110 ∷ 32 ∷ 111 ∷ 114 ∷ 32 ∷ 118 ∷ 101 ∷ 114 ∷ 105 ∷ 102 ∷ 121 ∷ 46 ∷ 46 ∷ 46 ∷ []

unfoldable pub initial : SignWidget
initial = record {
  keys = [];
  current_index = none;
  operating_key = "Operating key will be displayed here";
  operating_key_read_only = true;
  message = placeholder;
  message_shown = true;
  signature = "";
  signature_read_only = false;
  load_file_shown = false;
  file_name = "No file loaded.";
  file_hash = [];
  file_mode = false;
  sign_enabled = false;
  verify_enabled = false;
  choose_enabled = false;
  oks = [];
  status = "";
}

module _ (b : Base58) (k : Blake2) (m : SodiumMemory) (s : SodiumSign) (garbage : List ℕ) where
  unfoldable pub step : Event → SignWidget → Outcome SignWidget
  step (key_added pk sk) w =
      ok (record w { keys = add_key_pair (key_pair pk (some (region sk no_access))) w.keys })
  step sign_mode w = ok (activate_sign_mode w)
  step verify_mode w = ok (activate_verification_mode w)
  step choose_key w = if w.choose_enabled then ok (choose_signing_key w) else ok w
  step (row_clicked row) w =
      if ltb row (length w.keys)
      then ok (signing_key_chosen (record w { current_index = some row }))
      else ok w
  step (ok_clicked i) w =
      if get_or w.oks i false
      then ok (record (set_signing_key b w) { oks = set w.oks i false })
      else ok w
  step sign w = if w.sign_enabled then sign_msg b m s garbage w else ok w
  step verify w = if w.verify_enabled then ok (verify_signature_slot b s w) else ok w
  step (file_box state) w = ok (activate_file_mode state w)
  step (message_typed text) w = if w.message_shown then ok (record w { message = text }) else ok w
  step (signature_typed text) w =
      if w.signature_read_only then ok w else ok (record w { signature = text })
  step (key_typed text) w =
      if w.operating_key_read_only then ok w else ok (record w { operating_key = text })
  step (file_chosen name data_bytes) w =
      if w.load_file_shown then load_data_from_file k garbage name data_bytes w else ok w

  unfoldable pub run_events : List Event → SignWidget → Outcome SignWidget
  run_events [] w = ok w
  run_events (e ∷ es) w = do w' ← step e w; run_events es w'
