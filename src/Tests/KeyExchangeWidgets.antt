-- ===== src/Tests/KeyExchangeWidgets.antt =====
-- The tab for key exchanges at concrete states.
use Prim.Native.String.{String}
use cscrypto.Base.{◌≡◌, ◌≤◌, refl, true, ◌&&◌, some, List, [], ◌∷◌, arith, length, replicate, ok}
use cscrypto.Sodium.Memory.{region, no_access, simple_memory}
use cscrypto.KeyListModel.{KeyListModel, key_pair}
use cscrypto.CipherWidget as Cipher
use cscrypto.CipherWidget.{CipherWidget}
use cscrypto.CipherWidget.Events as CipherEvents
use cscrypto.KeyExchangeWidget.{KeyExchangeWidget, new_keys_handler}
use cscrypto.KeyExchangeWidget.Events.{
  Event, row_clicked, id_edited, request_clicked, server_clicked, host_typed, send_clicked,
  new_keys, initial, run_events,
}
use cscrypto.KeyExchangeWidget.Ready.{AllSent, AllOf}
use cscrypto.KeyExchangeWidget.Reach.{run_events-AllSent}
use cscrypto.KeyExchangeWidget.Files.{row_added, encrypts, decrypts, run_events-new_keys_handler}
use cscrypto.Tests.Values.{simple_blake2}
use cscrypto.Tests.Ciphers.{simple_stream, source_files, long_file}
use cscrypto.Tests.Aeads.{simple_pwhash}
use cscrypto.Tests.Texts.{simple_base58, unary, decode-unary}

abbrev own_keys : KeyListModel
own_keys = key_pair (replicate 32 3) (some (region (replicate 64 3) no_access)) ∷ []

abbrev exchanging : List Event
exchanging =
    row_clicked 0
    ∷ id_edited
        (some (record { id = 2; imported_key = "12"; trusted = "yes"; holder_name = "Ann" } ∷ []))
    ∷ request_clicked
    ∷ host_typed "example.org"
    ∷ send_clicked
    ∷ server_clicked
    ∷ new_keys true true "112" "2"
    ∷ server_clicked
    ∷ []

run_events-AllSent_example :
    let w = run_events simple_base58 [] exchanging (initial own_keys) in
    (w.request_enabled ≡ (w.own_key_ok && w.imported_key_ok))
    × AllSent w.own_keys w.requests
    × AllOf w.own_keys w.servers
    × (length w.servers ≤ 1)
run_events-AllSent_example = run_events-AllSent simple_base58 [] own_keys exchanging

abbrev send_key : String
send_key = unary (replicate 32 1)

abbrev ends : KeyExchangeWidget
ends = initial own_keys

run_events-new_keys_handler_example :
    (w v : CipherWidget) × (CipherEvents.run_events simple_base58 simple_memory simple_blake2
        simple_pwhash simple_stream
        (replicate 32 0)
        []
        []
        (replicate 24 0)
        (encrypts
          (row_added ends.encryption_keys
            (new_keys_handler true true send_key "2" ends).encryption_keys)
          0
          1)
        (Cipher.initial source_files)
      ≡ ok w)
    × (w.status ≡ "Source file successfully encrypted.")
    × (CipherEvents.run_events simple_base58 simple_memory simple_blake2 simple_pwhash simple_stream
          (replicate 32 0)
          []
          []
          (replicate 24 0)
          (decrypts
            (row_added ends.decryption_keys
              (new_keys_handler true true "2" send_key ends).decryption_keys)
            1
            2)
          (Cipher.initial w.files)
        ≡ ok v)
    × (v.status ≡ "Source file successfully decrypted.")
    × (v.files.contents 2 ≡ some long_file)
run_events-new_keys_handler_example =
    run_events-new_keys_handler simple_base58 simple_memory simple_blake2 simple_pwhash
      simple_stream (replicate 32 0) [] [] (replicate 24 0) send_key "2" (replicate 32 1) long_file
      ends ends source_files 0 1 2 (decode-unary (replicate 32 1)) refl refl refl refl refl refl
      (λ e. omega (arith, e)) (λ e. omega (arith, e))
