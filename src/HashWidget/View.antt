-- ===== src/HashWidget/View.antt =====
-- What the tab promises.
use Prim.Native.String.{String}
use text.Mathlib.Text.{◌==◌ as str_eq}
use cscrypto.Base.{
  ℕ, Bool, true, false, Option, none, some, List, [], ◌∷◌, ◌≤◌, length, if◌then◌else◌,
}
use cscrypto.Base58.{Base58}
use cscrypto.Blake2.{Blake2, blake2s_keybytes}
use cscrypto.SignWidget.{unchecked, partially_checked, checked}
use cscrypto.HashWidget.{
  key_prompt, message_prompt, hash_prompt, Event, message_clicked, file_clicked, hash_clicked,
  hmac_box, message_typed, key_typed, file_chosen,
}

-- No mode is chosen yet, a message is hashed, or a file, once one was loaded in this mode.
pub data Mode : Type 0 where
  no_mode message_mode : Mode
  file_mode : Option (List ℕ) → Mode

-- The promised view: the mode, the message, the key if one is asked for, and the hash that is shown.
pub record View : Type 0 where
  pub mode : Mode
  pub message : List ℕ
  pub key : List ℕ
  pub with_key : Bool
  pub shown : String

abbrev pub is_message_mode : Mode → Bool
is_message_mode message_mode = true
is_message_mode _ = false

abbrev pub is_file_mode : Mode → Bool
is_file_mode (file_mode loaded) = true
is_file_mode _ = false

-- What is hashed, if there is something.
abbrev pub data_of : Mode → List ℕ → Option (List ℕ)
data_of no_mode message = none
data_of message_mode message = some message
data_of (file_mode loaded) message = loaded

-- A file that is loaded.
abbrev pub loads : String → Option (List ℕ) → Mode → Mode
loads name (some bytes) (file_mode loaded) =
    if str_eq name "" then file_mode loaded else file_mode (some bytes)
loads name _ mode = mode

-- A key that is typed is one that `blake2s` takes.
abbrev pub KeyFits : Event → Type 0
KeyFits (key_typed text) = length text ≤ blake2s_keybytes
KeyFits _ = Unit

abbrev pub AllFit : List Event → Type 0
AllFit [] = Unit
AllFit (e ∷ es) = KeyFits e × AllFit es

-- The text of a hash that `blake2s` gave; where it gave none, what was shown stays.
abbrev pub text_of : Base58 → String → Option (List ℕ) → String
text_of b58 shown none = shown
text_of b58 shown (some hash) = b58.encode hash

module _ (b58 : Base58) (b : Blake2) where
  abbrev pub digest : View → List ℕ → String
  digest v bytes = text_of b58 v.shown (b.blake2s bytes (if v.with_key then v.key else []))

  unfoldable pub promise : Event → View → View
  promise message_clicked v = record v { mode = message_mode; shown = hash_prompt }
  promise file_clicked v = record v { mode = file_mode none; shown = hash_prompt }
  promise hash_clicked v = elim (data_of v.mode v.message) [
    | none ↦ v
    | some bytes ↦ record v { shown = digest v bytes }
  ]
  promise (hmac_box checked) v = record v { with_key = true; key = key_prompt }
  promise (hmac_box unchecked) v = record v { with_key = false }
  promise (hmac_box partially_checked) v = v
  promise (message_typed text) v = record v {
    message = if is_message_mode v.mode then text else v.message;
  }
  promise (key_typed text) v = record v { key = if v.with_key then text else v.key }
  promise (file_chosen name bytes) v = record v { mode = loads name bytes v.mode }

  unfoldable pub promise_all : List Event → View → View
  promise_all [] v = v
  promise_all (e ∷ es) v = promise_all es (promise e v)

abbrev pub initial_view : View
initial_view = record {
  mode = no_mode;
  message = message_prompt;
  key = key_prompt;
  with_key = false;
  shown = hash_prompt;
}
