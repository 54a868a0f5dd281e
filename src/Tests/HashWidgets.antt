-- ===== src/Tests/HashWidgets.antt =====
-- The tab for hashes at concrete states.
use cscrypto.Base.{arith, ◌≡◌, some, is_some, List, [], ◌∷◌}
use cscrypto.SignWidget.{checked}
use cscrypto.HashWidget.{
  Event, message_clicked, file_clicked, hash_clicked, hmac_box, message_typed, key_typed,
  file_chosen, initial, run_events,
}
use cscrypto.HashWidget.View.{data_of, initial_view, promise_all}
use cscrypto.HashWidget.Refinement.{run_events-promise_all}
use cscrypto.Tests.Values.{simple_blake2}
use cscrypto.Tests.Texts.{simple_base58}

abbrev hashing : List Event
hashing =
    hash_clicked
    ∷ message_clicked
    ∷ message_typed (104 ∷ 105 ∷ [])
    ∷ hash_clicked
    ∷ file_clicked
    ∷ hash_clicked
    ∷ file_chosen "report" (some (1 ∷ 2 ∷ 3 ∷ []))
    ∷ hmac_box checked
    ∷ key_typed (9 ∷ [])
    ∷ hash_clicked
    ∷ []

run_events-promise_all_example :
    let w = run_events simple_base58 simple_blake2 [] hashing initial in
    let v = promise_all simple_base58 simple_blake2 hashing initial_view in
    (w.gen_hash ≡ v.shown) × (w.hash_enabled ≡ is_some (data_of v.mode v.message))
run_events-promise_all_example =
    run_events-promise_all simple_base58 simple_blake2 [] hashing
      (tt, (tt, (tt, (tt, (tt, (tt, (tt, (tt, (omega arith, (tt, tt))))))))))
