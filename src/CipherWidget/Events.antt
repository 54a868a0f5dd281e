-- ===== src/CipherWidget/Events.antt =====
-- What a user, and the other tabs, do with the tab, event by event.
use Prim.Native.String.{String}
use cscrypto.Base.{ℕ, ◌+◌, true, false, Option, List, [], ◌∷◌, if◌then◌else◌, Outcome, ok, ◌>>=◌}
use cscrypto.Base58.{Base58}
use cscrypto.Blake2.{Blake2}
use cscrypto.Cipher.{FileName}
use cscrypto.Sodium.Aead.{SodiumPwhash}
use cscrypto.Sodium.Memory.{SodiumMemory}
use cscrypto.Sodium.SecretStream.{SecretStream}
use cscrypto.CipherWidget.{
  CipherWidget, get_src_file_name, get_trg_file_name, activate_encryption_mode,
  activate_decryption_mode, set_use_keys, update_use_keys_check_box, start,
}

pub data Event : Type 0 where
  -- a dialog for a file is closed, with a name or cancelled
  source_chosen target_chosen : Option FileName → Event
  encryption decryption : Event
  use_keys_clicked start_clicked : Event
  pswd_typed : List ℕ → Event
  -- an item of a combo box is chosen
  enc_key_chosen dec_key_chosen : String → Event
  -- a key exchange stores a pair of keys
  keys_stored : Event

module _ (b58 : Base58) (m : SodiumMemory) (b : Blake2) (ph : SodiumPwhash) (stream : SecretStream)
    (fresh garbage random stack : List ℕ) where
  unfoldable pub step : Event → CipherWidget → Outcome CipherWidget
  step (source_chosen name) w = ok (get_src_file_name name w)
  step (target_chosen name) w = ok (get_trg_file_name name w)
  step encryption w = ok (activate_encryption_mode w)
  step decryption w = ok (activate_decryption_mode w)
  step use_keys_clicked w =
      if w.use_keys_enabled then ok (set_use_keys (if w.use_keys then false else true) w) else ok w
  step start_clicked w =
      if w.start_enabled then start b58 m b ph stream fresh garbage random stack w else ok w
  step (pswd_typed text) w = ok (record w { pswd = text })
  step (enc_key_chosen text) w = ok (record w { enc_key = text })
  step (dec_key_chosen text) w = ok (record w { dec_key = text })
  step keys_stored w = ok (update_use_keys_check_box (record w { stored = w.stored + 1 }))

  unfoldable pub run_events : List Event → CipherWidget → Outcome CipherWidget
  run_events [] w = ok w
  run_events (e ∷ es) w = do w' ← step e w; run_events es w'
