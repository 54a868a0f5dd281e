-- ===== src/HashWidget/Refinement.antt =====
-- The slots do what the tab promises.
use cscrypto.Base.{
  ℕ, ◌≡◌, ◌≤◌, length, Option, arith, Bool-cases, inl, inr, refl, sym, ap, ◌∙◌, none, some, is_some,
  List, [], ◌∷◌, if_true, if_false,
}
use cscrypto.Base58.{Base58}
use cscrypto.Blake2.{Blake2}
use cscrypto.SignWidget.{unchecked, partially_checked, checked}
use cscrypto.HashWidget.{
  HashWidget, initial, activate_message_mode, activate_file_mode, activate_hmac, Event,
  message_clicked, file_clicked, hash_clicked, hmac_box, message_typed, key_typed, file_chosen,
  step, run_events,
}
use cscrypto.HashWidget.View.{View, data_of, KeyFits, AllFit, promise, promise_all, initial_view}
use cscrypto.HashWidget.Slots.{
  IsView, shows_of, loaded_of, data_of-is_some, if_IsView, hash_clicked-IsView,
  message_typed-IsView, file_chosen-IsView,
}

initial-IsView : IsView initial initial_view
unfolding initial
initial-IsView = record {
  same_message = refl;
  same_key = refl;
  same_hmac = refl;
  same_shown = refl;
  key_box = refl;
  file_flag = refl;
  message_box = refl;
  load_button = refl;
  hash_button = refl;
  loaded = λ bytes e. cc;
}

module _ (b58 : Base58) (b : Blake2) (garbage : List ℕ) where
  key_typed-IsView :
      (text : List ℕ) (w : HashWidget) (v : View)
      → IsView w v
      → IsView (step b58 b garbage (key_typed text) w) (promise b58 b (key_typed text) v)
  unfolding step promise
  key_typed-IsView text w v h =
      if_IsView b58 b garbage w.key_enabled w _ _
        (λ on.
          shows_of h.same_message (sym (if_true v.with_key _ _ (sym h.key_box ∙ on))) h.same_hmac
            h.same_shown h.key_box h.file_flag h.message_box h.load_button h.hash_button h.loaded)
        (λ off.
          shows_of h.same_message (h.same_key ∙ sym (if_false v.with_key _ _ (sym h.key_box ∙ off)))
            h.same_hmac h.same_shown h.key_box h.file_flag h.message_box h.load_button h.hash_button
            h.loaded)

  -- The key of the view stays one that `blake2s` takes.
  promise-KeyFits :
      (e : Event) (v : View) → KeyFits e → length v.key ≤ 32 → length (promise b58 b e v).key ≤ 32
  unfolding promise
  promise-KeyFits message_clicked v fit h = h
  promise-KeyFits file_clicked v fit h = h
  promise-KeyFits hash_clicked v fit h = go (data_of v.mode v.message) refl
    where
      go :
          (source : Option (List ℕ))
          → data_of v.mode v.message ≡ source
          → length (promise b58 b hash_clicked v).key ≤ 32
      go none e = rw (length, e) h
      go (some bytes) e = rw (length, e) h
  promise-KeyFits (hmac_box checked) v fit h = omega arith
  promise-KeyFits (hmac_box unchecked) v fit h = h
  promise-KeyFits (hmac_box partially_checked) v fit h = h
  promise-KeyFits (message_typed text) v fit h = h
  promise-KeyFits (key_typed text) v fit h = elim (Bool-cases v.with_key) [
    | inl on ↦ rw on fit
    | inr off ↦ rw off h
  ]
  promise-KeyFits (file_chosen name file) v fit h = h

  step-IsView :
      (e : Event) (w : HashWidget) (v : View)
      → length v.key ≤ 32
      → IsView w v
      → IsView (step b58 b garbage e w) (promise b58 b e v)
  unfolding step promise activate_message_mode activate_file_mode activate_hmac
  step-IsView message_clicked w v fits h =
      shows_of h.same_message h.same_key h.same_hmac refl h.key_box refl refl refl refl
        (λ bytes e. cc)
  step-IsView file_clicked w v fits h =
      shows_of h.same_message h.same_key h.same_hmac refl h.key_box refl refl refl refl
        (λ bytes e. let gone : none ≡ some bytes = ap loaded_of e in cc)
  step-IsView hash_clicked w v fits h =
      hash_clicked-IsView b58 b garbage w v.mode v.message v.key v.with_key v.shown fits h
  step-IsView (hmac_box checked) w v fits h =
      shows_of h.same_message refl refl h.same_shown refl h.file_flag h.message_box h.load_button
        h.hash_button h.loaded
  step-IsView (hmac_box unchecked) w v fits h =
      shows_of h.same_message h.same_key refl h.same_shown refl h.file_flag h.message_box
        h.load_button h.hash_button h.loaded
  step-IsView (hmac_box partially_checked) w v fits h = h
  step-IsView (message_typed text) w v fits h =
      message_typed-IsView b58 b garbage text w v.mode v.message v.key v.with_key v.shown h
  step-IsView (key_typed text) w v fits h = key_typed-IsView text w v h
  step-IsView (file_chosen name file) w v fits h =
      file_chosen-IsView b58 b garbage name file w v.mode v.message v.key v.with_key v.shown h

  run_events-IsView :
      (es : List Event) (w : HashWidget) (v : View)
      → AllFit es
      → length v.key ≤ 32
      → IsView w v
      → IsView (run_events b58 b garbage es w) (promise_all b58 b es v)
  unfolding run_events promise_all
  run_events-IsView [] w v all fits h = h
  run_events-IsView (e ∷ es) w v (fit, all) fits h =
      run_events-IsView es (step b58 b garbage e w) (promise b58 b e v) all
        (promise-KeyFits e v fit fits) (step-IsView e w v fits h)

  -- Whatever a user does with a new tab, in any order, if every key that is typed has at most 32 bytes,
  -- the line shows what the promised view says: what `blake2s` gives for the message, or for the file
  -- that was loaded since the file mode was chosen, at the last click on the button, with the key of
  -- that moment if one is asked for; the prompt after a change of the mode. It is never what an
  -- uninitialised hash holds. The button can be used exactly when there is a message or such a file.
  pub run_events-promise_all :
      (es : List Event)
      → AllFit es
      → let w = run_events b58 b garbage es initial in
        let v = promise_all b58 b es initial_view in
        (w.gen_hash ≡ v.shown) × (w.hash_enabled ≡ is_some (data_of v.mode v.message))
  run_events-promise_all es all =
      let h = run_events-IsView es initial initial_view all (omega arith) initial-IsView in
      let v = promise_all b58 b es initial_view in
      (h.same_shown, h.hash_button ∙ data_of-is_some v.mode _ v.message)
