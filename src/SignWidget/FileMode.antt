-- ===== src/SignWidget/FileMode.antt =====
-- The file mode: what `loadDataFromFile` keeps of a file.
use Prim.Native.String.{String}
use text.Mathlib.Text.{◌==◌ as str_eq}
use cscrypto.Base.{
  ℕ, ◌≡◌, ◌⊎◌, inl, inr, refl, ◌∙◌, true, false, some, List, [], ◌∷◌, arith, if◌then◌else◌, length,
  replicate, copy_to-append, ok,
}
use cscrypto.Base58.{Base58}
use cscrypto.Blake2.{Blake2}
use cscrypto.Cipher.{resize}
use cscrypto.Sodium.Memory.{Access, region, SodiumMemory}
use cscrypto.Sodium.Sign.{SodiumSign}
use cscrypto.KeyListModel.{key_pair, get_key_pair}
use cscrypto.MainCryptoFunctions.{calculate_hash}
use cscrypto.SignWidget.{
  SignWidget, chosen_message, load_data_from_file, activate_verification_mode,
  insert_verification_key, can_verify, can_sign, enable_signing,
}
use cscrypto.SignWidget.RoundTrip.{
  run-step, signed, step-sign, asked, run-asked, verify_signature_slot_accepts,
}
use cscrypto.SignWidget.Events.{sign, verify_mode, key_typed, verify, file_chosen, step, run_events}

abbrev pub zeros : List ℕ
zeros = replicate 32 0

-- What `fileHash_` can hold: nothing, or 32 zero bytes.
abbrev pub IsUnset : List ℕ → Type 0
IsUnset file_hash = (file_hash ≡ []) ⊎ (file_hash ≡ zeros)

resize-IsUnset : (file_hash : List ℕ) → IsUnset file_hash → resize file_hash 32 ≡ zeros
unfolding resize
resize-IsUnset file_hash (inl none_yet) = rw none_yet refl
resize-IsUnset file_hash (inr set) = rw set refl

-- A file that can be opened.
pub load_data_from_file-zeros :
    (k : Blake2) (garbage : List ℕ) (name : String) (data_bytes : List ℕ) (w : SignWidget)
    → str_eq name "" ≡ false
    → IsUnset w.file_hash
    → load_data_from_file k garbage name (some data_bytes) w
      ≡ ok (record w { file_hash = zeros; status = "File was loaded!"; file_name = name })
unfolding load_data_from_file calculate_hash
load_data_from_file-zeros k garbage name data_bytes w named unset =
    let (h, hashed, size, _) = k.blake2s_lem data_bytes [] (omega arith) in
    let copied = copy_to-append h zeros (omega (arith, size)) in
    let hash_is : calculate_hash k garbage data_bytes [] ≡ h = rw (calculate_hash, hashed) refl in
    simp (named, hash_is, size, resize-IsUnset w.file_hash unset) (rw copied refl)

module _ (b : Base58) (k : Blake2) (m : SodiumMemory) (s : SodiumSign) (garbage : List ℕ) where
  step-file_chosen :
      (name : String) (data_bytes : List ℕ) (w : SignWidget)
      → str_eq name "" ≡ false
      → IsUnset w.file_hash
      → w.load_file_shown ≡ true
      → step b k m s garbage (file_chosen name (some data_bytes)) w
        ≡ ok (record w { file_hash = zeros; status = "File was loaded!"; file_name = name })
  unfolding step
  step-file_chosen name data_bytes w named unset shown =
      simp (shown, load_data_from_file-zeros k garbage name data_bytes w named unset)

  -- In the file mode, with a selected pair of keys and `fileHash_` still empty: a file is loaded and
  -- signed, then in the verification mode any other file is loaded and verified with the public key.
  -- The text is `Correct signature!`, whatever the two files hold.
  pub sign-verify_other_file :
      (w : SignWidget) (sk : List ℕ) (a : Access) (name other_name : String)
      (data_bytes other_bytes : List ℕ)
      → w.sign_enabled ≡ true
      → w.file_mode ≡ true
      → w.load_file_shown ≡ true
      → w.file_hash ≡ []
      → get_key_pair garbage w.keys w.current_index ≡ key_pair (s.sk_to_pk sk) (some (region sk a))
      → length sk ≡ 64
      → str_eq name "" ≡ false
      → str_eq other_name "" ≡ false
      → (final : SignWidget) × (run_events b k m s garbage
            (file_chosen name (some data_bytes)
              ∷ sign
              ∷ verify_mode
              ∷ key_typed (b.encode (s.sk_to_pk sk))
              ∷ file_chosen other_name (some other_bytes)
              ∷ verify
              ∷ [])
            w
          ≡ ok final)
        × (final.status ≡ "Correct signature!")
  unfolding run_events step asked activate_verification_mode insert_verification_key can_verify
      can_sign enable_signing chosen_message
  sign-verify_other_file w sk a name other_name data_bytes other_bytes enabled mode shown unset
        selected l named other_named =
      let pk = s.sk_to_pk sk in
      let loaded : SignWidget = record w {
        file_hash = zeros;
        status = "File was loaded!";
        file_name = name;
      } in
      let done : SignWidget = signed b k m s garbage loaded pk sk zeros in
      let ready : SignWidget = asked b k m s garbage done pk in
      let last : SignWidget = record ready {
        file_hash = zeros;
        status = "File was loaded!";
        file_name = other_name;
      } in
      let es = file_chosen other_name (some other_bytes) ∷ verify ∷ [] in
      let at_msg : (if w.file_mode then zeros else w.message) ≡ zeros = rw mode refl in
      let rest = verify_mode ∷ key_typed (b.encode pk) ∷ es in
      (
        record last { status = "Correct signature!" },
        run-step b k m s garbage (file_chosen name (some data_bytes)) (sign ∷ rest) w loaded
              (step-file_chosen name data_bytes w named (inl unset) shown)
            ∙ run-step b k m s garbage sign rest loaded done (
                step-sign b k m s garbage loaded pk sk zeros a enabled selected at_msg
                  (λ e. omega (arith, e)))
            ∙ run-asked b k m s garbage done pk es
            ∙ run-step b k m s garbage (file_chosen other_name (some other_bytes)) (verify ∷ [])
                ready last
                (step-file_chosen other_name other_bytes ready other_named (inr refl) shown)
            ∙ rw
                (verify_signature_slot_accepts b s last (s.sign zeros sk) pk zeros refl refl at_msg
                  (s.sign_length zeros sk) (s.sk_to_pk_length sk) (λ e. omega (arith, e))
                  (s.verify-sign zeros sk l))
                refl,
        refl,
      )
