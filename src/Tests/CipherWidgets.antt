-- ===== src/Tests/CipherWidgets.antt =====
-- The tab for files at concrete states.
use cscrypto.Base.{◌≡◌, refl, true, false, some, List, [], ◌∷◌, arith, replicate, ok}
use cscrypto.Sodium.Memory.{simple_memory}
use cscrypto.CipherWidget.{CipherWidget, initial, start}
use cscrypto.CipherWidget.Events.{
  Event, source_chosen, target_chosen, encryption, decryption, use_keys_clicked, start_clicked,
  pswd_typed, keys_stored, run_events,
}
use cscrypto.CipherWidget.Ready.{IsReady}
use cscrypto.CipherWidget.Starts.{Hashes}
use cscrypto.CipherWidget.Reach.{run_events-IsReady, run_events-enables, initial-IsSound}
use cscrypto.CipherWidget.RoundTrip.{start-start}
use cscrypto.Tests.Values.{simple_blake2}
use cscrypto.Tests.Ciphers.{simple_stream, source_files, long_file}
use cscrypto.Tests.Aeads.{simple_pwhash}
use cscrypto.Tests.Texts.{simple_base58}

simple_pwhash-Hashes : Hashes simple_pwhash
simple_pwhash-Hashes n passwd salt = (replicate n 7, refl)

abbrev encrypting : List Event
encrypting =
    target_chosen (some 1)
    ∷ encryption
    ∷ pswd_typed (1 ∷ 2 ∷ 3 ∷ [])
    ∷ source_chosen (some 0)
    ∷ keys_stored
    ∷ use_keys_clicked
    ∷ use_keys_clicked
    ∷ start_clicked
    ∷ decryption
    ∷ []

run_events-IsReady_example :
    (w : CipherWidget) × (run_events simple_base58 simple_memory simple_blake2 simple_pwhash
        simple_stream
        (replicate 32 0)
        []
        []
        []
        encrypting
        (initial source_files)
      ≡ ok w)
    × IsReady w
run_events-IsReady_example =
    run_events-IsReady simple_base58 simple_memory simple_blake2 simple_pwhash simple_stream
      (replicate 32 0) [] [] [] simple_pwhash-Hashes refl source_files encrypting
      (tt, (tt, (tt, (tt, (tt, (tt, (tt, (tt, (tt, tt)))))))))

-- A tab before anything is chosen, without keys in the combo boxes.
run_events-enables_example :
    (w : CipherWidget) × (run_events simple_base58 simple_memory simple_blake2 simple_pwhash
        simple_stream
        (replicate 32 0)
        []
        []
        []
        encrypting
        (initial source_files)
      ≡ ok w)
    × (w.start_enabled ≡ true)
run_events-enables_example =
    run_events-enables simple_base58 simple_memory simple_blake2 simple_pwhash simple_stream
      (replicate 32 0) [] [] [] simple_pwhash-Hashes refl (initial source_files) encrypting
      (initial-IsSound simple_base58 source_files)
      (tt, (tt, (tt, (tt, (tt, (tt, (tt, (tt, (tt, tt))))))))) refl refl refl refl

abbrev encrypts : CipherWidget
encrypts = record (initial source_files) {
  source_file = 0;
  target_file = 1;
  encryption_mode = true;
  pswd = 1 ∷ 2 ∷ 3 ∷ [];
}

abbrev decrypts : CipherWidget
decrypts = record encrypts {
  source_file = 1;
  target_file = 2;
  encryption_mode = false;
  decryption_mode = true;
}

start-start_example :
    (encrypted final : CipherWidget) × (start simple_base58 simple_memory simple_blake2
        simple_pwhash simple_stream [] [] []
        (replicate 24 0)
        encrypts
      ≡ ok encrypted)
    × (encrypted.status ≡ "Source file successfully encrypted.")
    × (start simple_base58 simple_memory simple_blake2 simple_pwhash simple_stream [] [] []
          (replicate 24 0)
          (record decrypts { files = encrypted.files })
        ≡ ok final)
    × (final.status ≡ "Source file successfully decrypted.")
    × (final.files.contents 2 ≡ some long_file)
unfolding initial
start-start_example =
    start-start simple_base58 simple_memory simple_blake2 simple_pwhash simple_stream [] [] []
      (replicate 24 0) encrypts decrypts long_file (replicate 32 7) refl refl refl (omega arith)
      refl refl refl refl refl refl refl refl (ground arith) (ground arith) refl
