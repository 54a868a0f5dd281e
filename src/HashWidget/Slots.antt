-- ===== src/HashWidget/Slots.antt =====
-- What a slot does to a state that shows a view.
use Prim.Native.String.{String}
use text.Mathlib.Text.{◌==◌ as str_eq}
use mathlib.Core.Option.{some-injective}
use cscrypto.Base.{
  ℕ, ◌≡◌, ◌≤◌, length, refl, sym, ap, ◌∙◌, Bool, true, false, Option, none, some, arith, is_some,
  List, [], if◌then◌else◌, if_true, if_false,
}
use cscrypto.Base58.{Base58}
use cscrypto.Blake2.{Blake2}
use cscrypto.MainCryptoFunctions.{calculate_hash}
use cscrypto.HashWidget.{
  HashWidget, to_status_bar, calculate_hash_slot, load_hashing_file, hash_clicked, message_typed,
  file_chosen, step,
}
use cscrypto.HashWidget.View.{
  Mode, no_mode, message_mode, file_mode, View, is_message_mode, is_file_mode, data_of, text_of,
  promise,
}

-- A state of the controls, by the fields that matter, shows a view.
pub record Shows (mode : Mode) (v_message v_key : List ℕ) (v_with_key : Bool) (v_shown : String)
    (message hmac_key : List ℕ) (gen_hash : String) (hashing_data : List ℕ)
    (in_file hmac message_enabled load_enabled key_enabled hash_enabled : Bool) : Type 0 where
  pub same_message : message ≡ v_message
  pub same_key : hmac_key ≡ v_key
  pub same_hmac : hmac ≡ v_with_key
  pub same_shown : gen_hash ≡ v_shown
  pub key_box : key_enabled ≡ v_with_key
  pub file_flag : in_file ≡ is_file_mode mode
  pub message_box : message_enabled ≡ is_message_mode mode
  pub load_button : load_enabled ≡ is_file_mode mode
  pub hash_button : hash_enabled ≡ is_some (data_of mode message)
  pub loaded : (bytes : List ℕ) → mode ≡ file_mode (some bytes) → hashing_data ≡ bytes

abbrev pub shows_of :
    {mode : Mode} {v_message v_key : List ℕ} {v_with_key : Bool} {v_shown : String}
    {message hmac_key : List ℕ} {gen_hash : String} {hashing_data : List ℕ}
    {in_file hmac message_enabled load_enabled key_enabled hash_enabled : Bool}
    → message ≡ v_message
    → hmac_key ≡ v_key
    → hmac ≡ v_with_key
    → gen_hash ≡ v_shown
    → key_enabled ≡ v_with_key
    → in_file ≡ is_file_mode mode
    → message_enabled ≡ is_message_mode mode
    → load_enabled ≡ is_file_mode mode
    → hash_enabled ≡ is_some (data_of mode message)
    → ((bytes : List ℕ) → mode ≡ file_mode (some bytes) → hashing_data ≡ bytes)
    → Shows mode v_message v_key v_with_key v_shown message hmac_key gen_hash hashing_data in_file
        hmac message_enabled load_enabled key_enabled hash_enabled
shows_of m k o s kb f mb lb hb l = record {
  same_message = m;
  same_key = k;
  same_hmac = o;
  same_shown = s;
  key_box = kb;
  file_flag = f;
  message_box = mb;
  load_button = lb;
  hash_button = hb;
  loaded = l;
}

abbrev pub IsView : HashWidget → View → Type 0
IsView w v =
    Shows v.mode v.message v.key v.with_key v.shown w.message w.hmac_key w.gen_hash w.hashing_data
      w.file_mode w.hmac_mode w.message_enabled w.load_enabled w.key_enabled w.hash_enabled

abbrev pub view : Mode → List ℕ → List ℕ → Bool → String → View
view mode message key with_key shown = record {
  mode = mode;
  message = message;
  key = key;
  with_key = with_key;
  shown = shown;
}

pub data_of-is_some :
    (mode : Mode) (message message' : List ℕ)
    → is_some (data_of mode message) ≡ is_some (data_of mode message')
data_of-is_some no_mode message message' = refl
data_of-is_some message_mode message message' = refl
data_of-is_some (file_mode loaded) message message' = refl

abbrev pub loaded_of : Mode → Option (List ℕ)
loaded_of (file_mode loaded) = loaded
loaded_of _ = none

used_fits :
    (with_key : Bool) (key : List ℕ) → length key ≤ 32 → length (if with_key then key else []) ≤ 32
used_fits true key fits = fits
used_fits false key fits = omega arith

module _ (b58 : Base58) (b : Blake2) (garbage : List ℕ) where
  -- The control is enabled or not, and the view says what follows.
  pub if_IsView :
      (on : Bool) (w w' : HashWidget) (v : View)
      → (on ≡ true → IsView w' v)
      → (on ≡ false → IsView w v)
      → IsView (if on then w' else w) v
  if_IsView true w w' v does stays = does refl
  if_IsView false w w' v does stays = stays refl

  -- With a key that fits, the slot shows what `blake2s` gives.
  digest_eq :
      (bytes bytes' key key' : List ℕ) (with_key with_key' : Bool) (shown : String)
      → bytes ≡ bytes'
      → key ≡ key'
      → with_key ≡ with_key'
      → length key' ≤ 32
      → b58.encode (calculate_hash b garbage bytes (if with_key then key else []))
        ≡ text_of b58 shown (b.blake2s bytes' (if with_key' then key' else []))
  unfolding calculate_hash
  digest_eq bytes bytes' key key' with_key with_key' shown e e' e'' fits =
      let used = if with_key' then key' else [] in
      let (hash, hashed, size, is_bytes) =
        b.blake2s_lem bytes' used (used_fits with_key' key' fits) in
      rw (e, e', e'', calculate_hash, hashed) refl

  pub hash_clicked-IsView :
      (w : HashWidget) (mode : Mode) (message key : List ℕ) (with_key : Bool) (shown : String)
      → length key ≤ 32
      → IsView w (view mode message key with_key shown)
      → IsView
          (step b58 b garbage hash_clicked w)
          (promise b58 b hash_clicked (view mode message key with_key shown))
  unfolding step promise calculate_hash_slot
  hash_clicked-IsView w no_mode message key with_key shown fits h =
      if_IsView w.hash_enabled w _ _ (λ on. absurd (ground (arith, on, h.hash_button))) (λ off. h)
  hash_clicked-IsView w message_mode message key with_key shown fits h =
      if_IsView w.hash_enabled w _ _
        (λ on.
          shows_of h.same_message h.same_key h.same_hmac
            (digest_eq _ _ _ _ _ _ _ (if_false w.file_mode _ _ h.file_flag ∙ h.same_message)
              h.same_key h.same_hmac fits)
            h.key_box h.file_flag h.message_box h.load_button h.hash_button (λ bytes e. cc))
        (λ off. absurd (ground (arith, off, h.hash_button)))
  hash_clicked-IsView w (file_mode none) message key with_key shown fits h =
      if_IsView w.hash_enabled w _ _ (λ on. absurd (ground (arith, on, h.hash_button))) (λ off. h)
  hash_clicked-IsView w (file_mode (some bytes)) message key with_key shown fits h =
      if_IsView w.hash_enabled w _ _
        (λ on.
          shows_of h.same_message h.same_key h.same_hmac
            (digest_eq _ _ _ _ _ _ _ (if_true w.file_mode _ _ h.file_flag ∙ h.loaded bytes refl)
              h.same_key h.same_hmac fits)
            h.key_box h.file_flag h.message_box h.load_button h.hash_button
            (λ bytes' e. if_true w.file_mode _ _ h.file_flag ∙ h.loaded bytes' e))
        (λ off. absurd (ground (arith, off, h.hash_button)))

  pub message_typed-IsView :
      (text : List ℕ) (w : HashWidget) (mode : Mode) (message key : List ℕ) (with_key : Bool)
      (shown : String)
      → IsView w (view mode message key with_key shown)
      → IsView
          (step b58 b garbage (message_typed text) w)
          (promise b58 b (message_typed text) (view mode message key with_key shown))
  unfolding step promise
  message_typed-IsView text w mode message key with_key shown h =
      if_IsView w.message_enabled w _ _
        (λ on.
          shows_of (sym (if_true (is_message_mode mode) _ _ (sym h.message_box ∙ on))) h.same_key
            h.same_hmac h.same_shown h.key_box h.file_flag h.message_box h.load_button
            (h.hash_button ∙ data_of-is_some mode w.message text) h.loaded)
        (λ off.
          shows_of
            (h.same_message ∙ sym (if_false (is_message_mode mode) _ _ (sym h.message_box ∙ off)))
            h.same_key h.same_hmac h.same_shown h.key_box h.file_flag h.message_box h.load_button
            h.hash_button h.loaded)

  loaded-IsView :
      (empty : Bool) (name : String) (bytes : List ℕ) (old : Option (List ℕ)) (w : HashWidget)
      (message key : List ℕ) (with_key : Bool) (shown : String)
      → IsView w (view (file_mode old) message key with_key shown)
      → IsView
          (if empty then to_status_bar "No file chosen!" w else record w {
            hashing_data = bytes;
            status = "File loaded.";
            file_name = name;
            hash_enabled = true;
          })
          (view
            (if empty then file_mode old else file_mode (some bytes))
            message
            key
            with_key
            shown)
  loaded-IsView true name bytes old w message key with_key shown h = h
  loaded-IsView false name bytes old w message key with_key shown h =
      shows_of h.same_message h.same_key h.same_hmac h.same_shown h.key_box h.file_flag
        h.message_box h.load_button refl (λ bytes' e. some-injective bytes bytes' (ap loaded_of e))

  pub file_chosen-IsView :
      (name : String) (file : Option (List ℕ)) (w : HashWidget) (mode : Mode) (message key : List ℕ)
      (with_key : Bool) (shown : String)
      → IsView w (view mode message key with_key shown)
      → IsView
          (step b58 b garbage (file_chosen name file) w)
          (promise b58 b (file_chosen name file) (view mode message key with_key shown))
  unfolding step promise load_hashing_file
  file_chosen-IsView name none w mode message key with_key shown h =
      if_IsView w.load_enabled w _ _ (λ on. h) (λ off. h)
  file_chosen-IsView name (some bytes) w no_mode message key with_key shown h =
      if_IsView w.load_enabled w _ _ (λ on. absurd (ground (arith, on, h.load_button))) (λ off. h)
  file_chosen-IsView name (some bytes) w message_mode message key with_key shown h =
      if_IsView w.load_enabled w _ _ (λ on. absurd (ground (arith, on, h.load_button))) (λ off. h)
  file_chosen-IsView name (some bytes) w (file_mode old) message key with_key shown h =
      if_IsView w.load_enabled w _ _
        (λ on. loaded-IsView (str_eq name "") name bytes old w message key with_key shown h)
        (λ off. absurd (ground (arith, off, h.load_button)))
