-- ===== src/Tests/SignWidgets.antt =====
-- The tab for signatures at concrete states.
use cscrypto.Base.{ℕ, ◌≡◌, refl, true, some, List, [], ◌∷◌, arith, replicate, ok}
use cscrypto.Sodium.Memory.{region, no_access, simple_memory}
use cscrypto.KeyListModel.{key_pair, get_key_pair}
use cscrypto.SignWidget.{SignWidget, chosen_message}
use cscrypto.SignWidget.Events.{
  initial, run_events, sign, verify_mode, key_typed, verify, file_chosen, key_added, sign_mode,
  choose_key, row_clicked, ok_clicked, message_typed,
}
use cscrypto.SignWidget.RoundTrip.{sign-verify, sign_then_verify}
use cscrypto.SignWidget.FileMode.{sign-verify_other_file}
use cscrypto.SignWidget.Reach.{run_events-IsFit, IsConsistent}
use cscrypto.Tests.Values.{simple_blake2}
use cscrypto.Tests.Exchanges.{simple_sign, repeat_key}
use cscrypto.Tests.Texts.{simple_base58, unary}

abbrev sk : List ℕ
sk = replicate 64 3

-- A tab with a selected key, in the sign mode.
abbrev selecting : SignWidget
selecting = record initial {
  keys = key_pair (repeat_key sk) (some (region sk no_access)) ∷ [];
  current_index = some 0;
  sign_enabled = true;
  message = 104 ∷ 105 ∷ [];
}

sign-verify_example :
    (final : SignWidget) × (run_events simple_base58 simple_blake2 simple_memory simple_sign []
        (sign_then_verify simple_base58 simple_blake2 simple_memory simple_sign [] (repeat_key sk))
        selecting
      ≡ ok final)
    × (final.status ≡ "Correct signature!")
unfolding initial get_key_pair chosen_message
sign-verify_example =
    sign-verify simple_base58 simple_blake2 simple_memory simple_sign [] selecting sk no_access refl
      refl refl (λ e. omega (arith, e))

abbrev in_file_mode : SignWidget
in_file_mode = record selecting { file_mode = true; load_file_shown = true; message_shown = true }

sign-verify_other_file_example :
    (final : SignWidget) × (run_events simple_base58 simple_blake2 simple_memory simple_sign []
        (file_chosen "contract" (some (1 ∷ 2 ∷ []))
          ∷ sign
          ∷ verify_mode
          ∷ key_typed (unary (repeat_key sk))
          ∷ file_chosen "other" (some (9 ∷ []))
          ∷ verify
          ∷ [])
        in_file_mode
      ≡ ok final)
    × (final.status ≡ "Correct signature!")
unfolding initial get_key_pair chosen_message
sign-verify_other_file_example =
    sign-verify_other_file simple_base58 simple_blake2 simple_memory simple_sign [] in_file_mode sk
      no_access "contract" "other" (1 ∷ 2 ∷ []) (9 ∷ []) refl refl refl refl refl refl refl refl

run_events-IsFit_example :
    (w : SignWidget) × (run_events simple_base58 simple_blake2 simple_memory simple_sign []
        (key_added (repeat_key sk) sk
          ∷ sign_mode
          ∷ choose_key
          ∷ row_clicked 0
          ∷ ok_clicked 0
          ∷ message_typed (7 ∷ [])
          ∷ sign
          ∷ verify_mode
          ∷ verify
          ∷ [])
        initial
      ≡ ok w)
    × IsConsistent w
run_events-IsFit_example =
    run_events-IsFit simple_base58 simple_blake2 simple_memory simple_sign [] (
      key_added (repeat_key sk) sk
      ∷ sign_mode
      ∷ choose_key
      ∷ row_clicked 0
      ∷ ok_clicked 0
      ∷ message_typed (7 ∷ [])
      ∷ sign
      ∷ verify_mode
      ∷ verify
      ∷ [])
