-- ===== src/SignWidget/Reach.antt =====
-- What holds of the tab after any events.
use Prim.Native.String.{String}
use text.Mathlib.Text.{◌==◌ as str_eq}
use cscrypto.Base.{
  ℕ, ◌==◌, ◌≡◌, ◌≢◌, inl, inr, refl, Bool, Bool-cases, true, false, Option, none, some, List, [],
  ◌∷◌, ◌++◌, arith, if◌then◌else◌, length, get_or, ltb, ltb→lt, Outcome, ok,
}
use cscrypto.Base58.{Base58}
use cscrypto.Blake2.{Blake2}
use cscrypto.Sodium.Memory.{region, no_access, SodiumMemory}
use cscrypto.Sodium.Sign.{SodiumSign}
use cscrypto.KeyListModel.{KeyListModel, ModelIndex, row_count}
use cscrypto.SignWidget.{
  SignWidget, checked, unchecked, partially_checked, chosen_message, sign_msg, load_data_from_file,
  to_status_bar, activate_sign_mode, activate_verification_mode, insert_verification_key,
  can_verify, can_sign, enable_signing, activate_file_mode, choose_signing_key, signing_key_chosen,
  can_set_signing_key, set_signing_key, verify_signature_slot, show_all,
}
use cscrypto.SignWidget.Events.{
  Event, key_added, sign_mode, verify_mode, choose_key, sign, verify, file_box, row_clicked,
  ok_clicked, message_typed, signature_typed, key_typed, file_chosen, initial, step, run_events,
}
use cscrypto.SignWidget.Rows.{
  AllPresent, IsRow, AllPresent-get_elem?, AllPresent-add_key_pair, IsRow-add_key_pair,
  get_elem?-lt, get_or-new, get_key_pair-at, AllPresent-put_back, IsRow-put_back,
}
use cscrypto.SignWidget.FileMode.{IsUnset, zeros, load_data_from_file-zeros}
use cscrypto.SignWidget.RoundTrip.{sign_msg_lem}

-- The buttons that need a selected key are disabled until there is one, `fileHash_` is empty or 32
-- zero bytes, and the controls of the file mode are shown in the file mode.
pub record IsFit (keys : KeyListModel) (index : ModelIndex) (sign_enabled : Bool) (oks : List Bool)
    (file_hash : List ℕ) (file_shown file_mode : Bool) : Type 0 where
  pub present : AllPresent keys
  pub sign_needs_row : sign_enabled ≡ true → IsRow keys index
  pub ok_needs_row : (i : ℕ) → get_or oks i false ≡ true → IsRow keys index
  pub unset : IsUnset file_hash
  pub file_controls : file_shown ≡ file_mode

abbrev fit :
    {keys : KeyListModel} {index : ModelIndex} {sign_enabled : Bool} {oks : List Bool}
    {file_hash : List ℕ} {file_shown file_mode : Bool}
    → AllPresent keys
    → (sign_enabled ≡ true → IsRow keys index)
    → ((i : ℕ) → get_or oks i false ≡ true → IsRow keys index)
    → IsUnset file_hash
    → file_shown ≡ file_mode
    → IsFit keys index sign_enabled oks file_hash file_shown file_mode
fit p s o u f = record {
  present = p;
  sign_needs_row = s;
  ok_needs_row = o;
  unset = u;
  file_controls = f;
}

abbrev pub IsConsistent : SignWidget → Type 0
IsConsistent w =
    IsFit w.keys w.current_index w.sign_enabled w.oks w.file_hash w.load_file_shown w.file_mode

initial-IsConsistent : IsConsistent initial
unfolding initial
initial-IsConsistent = record {
  present = tt;
  sign_needs_row = λ e. cc;
  ok_needs_row = λ i e. cc;
  unset = inl refl;
  file_controls = refl;
}

module _ (b : Base58) (k : Blake2) (m : SodiumMemory) (s : SodiumSign) (garbage : List ℕ) where
  abbrev Stays : Event → SignWidget → Type 0
  Stays e w = (w' : SignWidget) × (step b k m s garbage e w ≡ ok w') × IsConsistent w'

  -- An event that does nothing while a control is disabled.
  stays_if :
      (on : Bool) (w : SignWidget) (run : Outcome SignWidget)
      → IsConsistent w
      → (on ≡ true → (w' : SignWidget) × (run ≡ ok w') × IsConsistent w')
      → (w' : SignWidget) × ((if on then run else ok w) ≡ ok w') × IsConsistent w'
  stays_if true w run h does = does refl
  stays_if false w run h does = (w, refl, h)

  sign_msg-IsConsistent :
      (w : SignWidget)
      → IsConsistent w
      → w.sign_enabled ≡ true
      → (w' : SignWidget) × (sign_msg b m s garbage w ≡ ok w') × IsConsistent w'
  unfolding sign_msg
  sign_msg-IsConsistent w h enabled = elim (Bool-cases (length (chosen_message w) == 0)) [
    | inl empty ↦ (to_status_bar "Signing message is empty! Type it." w, rw empty refl, h)
    | inr not_empty ↦
        let (row, at, pair, e) = h.sign_needs_row enabled in
        let (r, there) = AllPresent-get_elem? w.keys row pair h.present e in
        let selected = get_key_pair-at garbage w.keys w.current_index row pair r at e there in
        let ne : length (chosen_message w) ≢ 0 =
          λ zero_length. ground (arith, not_empty, zero_length) in
        (
          _,
          sign_msg_lem b m s garbage w pair.public_key r.bytes (chosen_message w) r.access selected
              refl ne,
          fit
              (AllPresent-put_back w.current_index pair.public_key (region r.bytes no_access) w.keys
                h.present)
              (λ e. IsRow-put_back w.current_index _ w.keys (h.sign_needs_row e))
              (λ i e. IsRow-put_back w.current_index _ w.keys (h.ok_needs_row i e)) h.unset
              h.file_controls,
        )
  ]

  load-IsConsistent :
      (name : String) (data_bytes : Option (List ℕ)) (w : SignWidget)
      → IsConsistent w
      → (w' : SignWidget) × (load_data_from_file k garbage name data_bytes w ≡ ok w')
        × IsConsistent w'
  unfolding load_data_from_file
  load-IsConsistent name none w h = (_, refl, h)
  load-IsConsistent name (some data_bytes) w h = elim (Bool-cases (str_eq name "")) [
    | inl empty ↦ (to_status_bar "File was not selected!" w, rw empty refl, h)
    | inr named ↦ (
      record w { file_hash = zeros; status = "File was loaded!"; file_name = name },
      load_data_from_file-zeros k garbage name data_bytes w named h.unset,
      fit h.present h.sign_needs_row h.ok_needs_row (inr refl) h.file_controls,
    )
  ]

  show_all-IsConsistent :
      (texts : List String) (w : SignWidget) → IsConsistent w → IsConsistent (show_all texts w)
  unfolding show_all
  show_all-IsConsistent [] w h = h
  show_all-IsConsistent (text ∷ texts) w h = show_all-IsConsistent texts (to_status_bar text w) h

  step-IsConsistent : (e : Event) (w : SignWidget) → IsConsistent w → Stays e w
  unfolding step activate_sign_mode activate_verification_mode insert_verification_key can_verify
      can_sign enable_signing activate_file_mode choose_signing_key signing_key_chosen
      can_set_signing_key set_signing_key verify_signature_slot
  step-IsConsistent (key_added pk sk) w h = (
    _,
    refl,
    fit (AllPresent-add_key_pair w.keys pk (region sk no_access) h.present)
        (λ e. IsRow-add_key_pair w.keys w.current_index _ (h.sign_needs_row e))
        (λ i e. IsRow-add_key_pair w.keys w.current_index _ (h.ok_needs_row i e)) h.unset
        h.file_controls,
  )
  step-IsConsistent sign_mode w h = (_, refl, h)
  step-IsConsistent verify_mode w h =
      (_, refl, fit h.present (λ e. cc) h.ok_needs_row h.unset h.file_controls)
  step-IsConsistent choose_key w h = stays_if w.choose_enabled w _ h (λ on.
      elim (Bool-cases (row_count w.keys == 0)) [
        | inl empty ↦ (w, rw empty refl, h)
        | inr some_row ↦ (
          record w { oks = w.oks ++ (false ∷ []) },
          rw some_row refl,
          fit h.present h.sign_needs_row (λ i e. h.ok_needs_row i (get_or-new w.oks i e)) h.unset
              h.file_controls,
        )
      ])
  step-IsConsistent sign w h = stays_if w.sign_enabled w _ h (sign_msg-IsConsistent w h)
  step-IsConsistent verify w h =
      stays_if w.verify_enabled w _ h (λ on. (_, refl, show_all-IsConsistent _ w h))
  step-IsConsistent (file_box unchecked) w h =
      (_, refl, fit h.present h.sign_needs_row h.ok_needs_row h.unset refl)
  step-IsConsistent (file_box checked) w h =
      (_, refl, fit h.present h.sign_needs_row h.ok_needs_row h.unset refl)
  step-IsConsistent (file_box partially_checked) w h = (_, refl, h)
  step-IsConsistent (row_clicked row) w h = stays_if (ltb row (length w.keys)) w _ h (λ on.
      let selected : IsRow w.keys (some row) =
        let (pair, there) = get_elem?-lt w.keys row (ltb→lt row (length w.keys) on) in
        (row, refl, pair, there) in
      (_, refl, fit h.present (λ e. selected) (λ i e. selected) h.unset h.file_controls))
  step-IsConsistent (ok_clicked i) w h = stays_if (get_or w.oks i false) w _ h (λ on. (
    _,
    refl,
    fit h.present (λ e. h.ok_needs_row i on) (λ j e. h.ok_needs_row i on) h.unset h.file_controls,
  ))
  step-IsConsistent (message_typed text) w h = stays_if w.message_shown w _ h (λ on. (_, refl, h))
  step-IsConsistent (signature_typed text) w h = elim (Bool-cases w.signature_read_only) [
    | inl fixed ↦ (w, simp fixed, h)
    | inr free ↦ (record w { signature = text }, simp free, h)
  ]
  step-IsConsistent (key_typed text) w h = elim (Bool-cases w.operating_key_read_only) [
    | inl fixed ↦ (w, simp fixed, h)
    | inr free ↦ (record w { operating_key = text }, simp free, h)
  ]
  step-IsConsistent (file_chosen name data_bytes) w h =
      stays_if w.load_file_shown w _ h (λ on. load-IsConsistent name data_bytes w h)

  run_events-IsConsistent :
      (es : List Event) (w : SignWidget)
      → IsConsistent w
      → (w' : SignWidget) × (run_events b k m s garbage es w ≡ ok w') × IsConsistent w'
  unfolding run_events
  run_events-IsConsistent [] w h = (w, refl, h)
  run_events-IsConsistent (e ∷ es) w h =
      let (next, stepped, fit) = step-IsConsistent e w h in
      let (last, ran, fit') = run_events-IsConsistent es next fit in (last, rw stepped ran, fit')

  -- Whatever a user does with the tab, in any order: nothing faults, so that no null private key is
  -- read, and at the end the Sign button is enabled only if the selected row is a pair of keys of the list,
  -- every pair has a private key, and `fileHash_` is empty or 32 zero bytes.
  pub run_events-IsFit :
      (es : List Event)
      → (w : SignWidget) × (run_events b k m s garbage es initial ≡ ok w) × IsConsistent w
  run_events-IsFit es = run_events-IsConsistent es initial initial-IsConsistent
