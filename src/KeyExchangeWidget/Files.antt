-- ===== src/KeyExchangeWidget/Files.antt =====
-- What the keys of an exchange are for: qt/src/cipherwidget.cpp at both ends.
use Prim.Native.String.{String}
use cscrypto.Base.{ℕ, ◌≡◌, ◌≢◌, refl, true, false, some, List, [], ◌∷◌, ◌++◌, length, get_or, ok}
use cscrypto.Base58.{Base58}
use cscrypto.Blake2.{Blake2}
use cscrypto.Cipher.{FileName, FileSystem}
use cscrypto.Sodium.Aead.{SodiumPwhash}
use cscrypto.Sodium.Memory.{region, read_write, SodiumMemory}
use cscrypto.Sodium.SecretStream.{SecretStream}
use cscrypto.CipherWidget.{
  CipherWidget, initial, start, has_mode, get_src_file_name, get_trg_file_name,
  analyze_use_keys_status, start_if_loaded, activate_encryption_mode, activate_decryption_mode,
  set_use_keys, update_use_keys_check_box,
}
use cscrypto.CipherWidget.Events.{
  Event, source_chosen, target_chosen, encryption, decryption, use_keys_clicked, start_clicked,
  enc_key_chosen, dec_key_chosen, keys_stored, step, run_events,
}
use cscrypto.CipherWidget.RoundTrip.{find_key-text, start-start_found}
use cscrypto.KeyExchangeWidget.{KeyExchangeWidget, new_keys_handler, insert_key}

-- The key of the last row of a model, which had so many rows before.
abbrev pub row_added : List String → List String → String
row_added before keys = get_or keys (length before) ""

get_or-last : (keys : List String) (key : String) → row_added keys (keys ++ (key ∷ [])) ≡ key
get_or-last [] key = refl
get_or-last (first ∷ keys) key = get_or-last keys key

-- What a user does in the tab for files, from the moment on that it has keys.
abbrev pub encrypts : String → FileName → FileName → List Event
encrypts key source target =
    keys_stored
    ∷ use_keys_clicked
    ∷ encryption
    ∷ enc_key_chosen key
    ∷ source_chosen (some source)
    ∷ target_chosen (some target)
    ∷ start_clicked
    ∷ []

abbrev pub decrypts : String → FileName → FileName → List Event
decrypts key source target =
    keys_stored
    ∷ use_keys_clicked
    ∷ decryption
    ∷ dec_key_chosen key
    ∷ source_chosen (some source)
    ∷ target_chosen (some target)
    ∷ start_clicked
    ∷ []

module _ (b58 : Base58) (m : SodiumMemory) (b : Blake2) (ph : SodiumPwhash) (stream : SecretStream)
    (fresh garbage random stack : List ℕ) where
  -- The tab before the click on Start.
  abbrev encrypting : FileSystem → String → FileName → FileName → CipherWidget
  encrypting fs key source target = record (initial fs) {
    source_file = source;
    target_file = target;
    source_file_loaded = true;
    target_file_loaded = true;
    encryption_mode = true;
    start_enabled = true;
    use_keys_enabled = true;
    use_keys = true;
    stored = 1;
    enc_key = key;
    pswd_shown = false;
    enc_shown = true;
    status = "Encryption mode activated.";
  }

  abbrev decrypting : FileSystem → String → FileName → FileName → CipherWidget
  decrypting fs key source target = record (initial fs) {
    source_file = source;
    target_file = target;
    source_file_loaded = true;
    target_file_loaded = true;
    decryption_mode = true;
    start_enabled = true;
    use_keys_enabled = true;
    use_keys = true;
    stored = 1;
    dec_key = key;
    pswd_shown = false;
    dec_shown = true;
    status = "Decryption mode activated.";
  }

  run_encrypts :
      (fs : FileSystem) (key : String) (source target : FileName) (w : CipherWidget)
      → start b58 m b ph stream fresh garbage random stack (encrypting fs key source target) ≡ ok w
      → run_events b58 m b ph stream fresh garbage random stack
          (encrypts key source target)
          (initial fs)
        ≡ ok w
  unfolding run_events step initial update_use_keys_check_box set_use_keys analyze_use_keys_status
      activate_encryption_mode start_if_loaded get_src_file_name get_trg_file_name has_mode
  run_encrypts fs key source target w e = rw e refl

  run_decrypts :
      (fs : FileSystem) (key : String) (source target : FileName) (w : CipherWidget)
      → start b58 m b ph stream fresh garbage random stack (decrypting fs key source target) ≡ ok w
      → run_events b58 m b ph stream fresh garbage random stack
          (decrypts key source target)
          (initial fs)
        ≡ ok w
  unfolding run_events step initial update_use_keys_check_box set_use_keys analyze_use_keys_status
      activate_decryption_mode start_if_loaded get_src_file_name get_trg_file_name has_mode
  run_decrypts fs key source target w e = rw e refl

  -- Two ends get the keys of one exchange, of which `send` decodes to 32 bytes: one end as the
  -- keys to send and to receive with, the other in swapped order. One then chooses the new key
  -- for encryption in a new tab for files, and the other its new key for decryption in a new tab
  -- on the files that this leaves. If the source exists, the two targets can be opened, the
  -- first target is neither the source nor the second target, a new key has 32 bytes and the header array 24, nothing faults, both tabs report
  -- success, and the second target holds the bytes of the source, of whatever length.
  pub run_events-new_keys_handler :
      (send receive : String) (key bytes : List ℕ) (sender receiver : KeyExchangeWidget)
      (fs : FileSystem) (source target plain : FileName)
      → b58.decode send ≡ some key
      → length key ≡ 32
      → length fresh ≡ 32
      → length stack ≡ 24
      → fs.contents source ≡ some bytes
      → fs.writable target ≡ true
      → fs.writable plain ≡ true
      → target ≢ source
      → target ≢ plain
      → (w v : CipherWidget) × (run_events b58 m b ph stream fresh garbage random stack
            (encrypts
              (row_added sender.encryption_keys
                (new_keys_handler true true send receive sender).encryption_keys)
              source
              target)
            (initial fs)
          ≡ ok w)
        × (w.status ≡ "Source file successfully encrypted.")
        × (run_events b58 m b ph stream fresh garbage random stack
              (decrypts
                (row_added receiver.decryption_keys
                  (new_keys_handler true true receive send receiver).decryption_keys)
                target
                plain)
              (initial w.files)
            ≡ ok v)
        × (v.status ≡ "Source file successfully decrypted.")
        × (v.files.contents plain ≡ some bytes)
  unfolding new_keys_handler insert_key initial
  run_events-new_keys_handler send receive key bytes sender receiver fs source target plain decoded
        l l' s there writable writable' apart ne =
      let at_sender = get_or-last sender.encryption_keys send in
      let at_receiver = get_or-last receiver.decryption_keys send in
      let (w, v, encrypted, done, decrypted, done', back) =
        start-start_found b58 m b ph stream fresh garbage random stack
          (encrypting fs send source target) (decrypting fs send target plain) bytes
          (region key read_write) read_write
          (find_key-text b58 m b ph stream fresh garbage random stack
            (encrypting fs send source target) send key refl refl decoded l l')
          (λ files.
            find_key-text b58 m b ph stream fresh garbage random stack
              (decrypting files send target plain) send key refl refl decoded l l')
          refl refl refl refl there writable writable' apart ne s in
      (
        w,
        v,
        rw at_sender (run_encrypts fs send source target w encrypted),
        done,
        rw at_receiver (run_decrypts w.files send target plain v decrypted),
        done',
        back,
      )
