-- ===== src/SignWidget/RoundTrip.antt =====
-- A message that is signed, and then verified with the public key of the signing key.
use Prim.Native.String.{String}
use text.Mathlib.Text.{◌==◌ as str_eq}
use text.Mathlib.TextEquality.{eq_iff}
use mathlib.Core.Option.{some-injective}
use cscrypto.Base.{
  ℕ, ◌≡◌, ◌≢◌, refl, sym, ap, ◌∙◌, inl, inr, Bool-cases, true, false, some, List, [], ◌∷◌, ◌==◌,
  arith, length, Outcome, ok,
}
use cscrypto.Base58.{Base58}
use cscrypto.Blake2.{Blake2}
use cscrypto.Sodium.Memory.{Access, region, no_access, SodiumMemory}
use cscrypto.Sodium.Sign.{SodiumSign}
use cscrypto.KeyListModel.{put_back, key_pair, get_key_pair}
use cscrypto.MainCryptoFunctions.{generate_signature, with_access_lem, verify_signature}
use cscrypto.SignWidget.{
  SignWidget, chosen_message, sign_msg, decode_sized, verify_texts, verdict, show_all,
  verify_signature_slot, activate_verification_mode, insert_verification_key, can_verify, can_sign,
  enable_signing,
}
use cscrypto.SignWidget.Events.{Event, sign, verify_mode, key_typed, verify, step, run_events}

not_zero : (n : ℕ) → n ≢ 0 → (n == 0) ≡ false
not_zero n ne = ground (arith, ne)

module _ (b : Base58) where
  pub encode-ne : (bytes : List ℕ) → length bytes ≢ 0 → str_eq (b.encode bytes) "" ≡ false
  encode-ne bytes ne = elim (Bool-cases (str_eq (b.encode bytes) "")) [
    | inr different ↦ different
    | inl empty ↦ absurd (
        ne (
          ap length (
            some-injective bytes [] (
              sym (b.decode-encode bytes)
              ∙ ap b.decode ((eq_iff (b.encode bytes) "").0 empty)
              ∙ b.decode_empty))))
  ]

  pub decode_sized-encode :
      (n : ℕ) (bytes : List ℕ) → length bytes ≡ n → decode_sized b n (b.encode bytes) ≡ some bytes
  unfolding decode_sized
  decode_sized-encode n bytes l =
      let right_size : (length bytes == n) ≡ true = ground arith in
      rw (decode_sized, b.decode-encode bytes, right_size) refl

  -- The texts for a signature that libsodium accepts.
  verify_texts-encode :
      (s : SodiumSign) (sig pk msg : List ℕ)
      → length sig ≡ 64
      → length pk ≡ 32
      → length msg ≢ 0
      → s.verify sig msg pk ≡ true
      → verify_texts b s (b.encode sig) (b.encode pk) msg ≡ "Correct signature!" ∷ []
  unfolding verify_texts verdict verify_signature
  verify_texts-encode s sig pk msg l l' ne valid =
      rw
        (
          encode-ne sig (omega (arith, l)),
          not_zero _ ne,
          encode-ne pk (omega (arith, l')),
          verdict,
          decode_sized-encode 64 sig l,
          decode_sized-encode 32 pk l',
          valid,
        )
        refl

  pub verify_signature_slot_accepts :
      (s : SodiumSign) (w : SignWidget) (sig pk msg : List ℕ)
      → w.signature ≡ b.encode sig
      → w.operating_key ≡ b.encode pk
      → chosen_message w ≡ msg
      → length sig ≡ 64
      → length pk ≡ 32
      → length msg ≢ 0
      → s.verify sig msg pk ≡ true
      → verify_signature_slot b s w ≡ record w { status = "Correct signature!" }
  unfolding verify_signature_slot show_all
  verify_signature_slot_accepts s w sig pk msg at_sig at_key at_msg l l' ne valid =
      let texts : verify_texts b s w.signature w.operating_key (chosen_message w)
          ≡ "Correct signature!" ∷ [] =
        simp (at_sig, at_key, at_msg, verify_texts-encode s sig pk msg l l' ne valid) in
      ap (λ (x : List String). show_all x w) texts

  module _ (m : SodiumMemory) (s : SodiumSign) (garbage : List ℕ) where
    -- `signMsg` with a key that is selected.
    pub sign_msg_lem :
        (w : SignWidget) (pk sk msg : List ℕ) (a : Access)
        → get_key_pair garbage w.keys w.current_index ≡ key_pair pk (some (region sk a))
        → chosen_message w ≡ msg
        → length msg ≢ 0
        → sign_msg b m s garbage w
          ≡ ok (record w {
            keys = put_back w.current_index (key_pair pk (some (region sk no_access))) w.keys;
            signature = b.encode (s.sign msg sk);
            status = "Message signed. New signature has been generated.";
          })
    unfolding sign_msg generate_signature
    sign_msg_lem w pk sk msg a selected at_msg ne =
        simp (at_msg, not_zero _ ne, selected, with_access_lem m (region sk a) (s.sign msg))

module _ (b : Base58) (k : Blake2) (m : SodiumMemory) (s : SodiumSign) (garbage : List ℕ) where
  abbrev run : List Event → SignWidget → Outcome SignWidget
  run = run_events b k m s garbage

  pub run-step :
      (e : Event) (es : List Event) (w w' : SignWidget)
      → step b k m s garbage e w ≡ ok w'
      → run (e ∷ es) w ≡ run es w'
  unfolding run_events
  run-step e es w w' done = rw done refl

  -- The state after a click on Sign.
  abbrev pub signed : SignWidget → (pk sk msg : List ℕ) → SignWidget
  signed w pk sk msg = record w {
    keys = put_back w.current_index (key_pair pk (some (region sk no_access))) w.keys;
    signature = b.encode (s.sign msg sk);
    status = "Message signed. New signature has been generated.";
  }

  pub step-sign :
      (w : SignWidget) (pk sk msg : List ℕ) (a : Access)
      → w.sign_enabled ≡ true
      → get_key_pair garbage w.keys w.current_index ≡ key_pair pk (some (region sk a))
      → chosen_message w ≡ msg
      → length msg ≢ 0
      → step b k m s garbage sign w ≡ ok (signed w pk sk msg)
  unfolding step
  step-sign w pk sk msg a enabled selected at_msg ne =
      simp (enabled, sign_msg_lem b m s garbage w pk sk msg a selected at_msg ne)

  -- The state after the change to the verification mode and the text of a public key.
  unfoldable pub asked : SignWidget → List ℕ → SignWidget
  asked w pk = record (activate_verification_mode w) { operating_key = b.encode pk }

  pub run-asked :
      (w : SignWidget) (pk : List ℕ) (es : List Event)
      → run (verify_mode ∷ key_typed (b.encode pk) ∷ es) w ≡ run es (asked w pk)
  unfolding run_events step asked activate_verification_mode insert_verification_key can_verify
      can_sign enable_signing
  run-asked w pk es = refl

  -- The events that sign and then verify with the public key of the key.
  abbrev pub sign_then_verify : List ℕ → List Event
  sign_then_verify pk = sign ∷ verify_mode ∷ key_typed (b.encode pk) ∷ verify ∷ []

  -- With a selected pair of keys, whose public key belongs to its private key of 64 bytes, and a
  -- message or loaded file that is not empty: a click on Sign, the change to the verification mode,
  -- the Base58 text of the public key and a click on Verify end with the text `Correct signature!`,
  -- and nothing faults.
  pub sign-verify :
      (w : SignWidget) (sk : List ℕ) (a : Access)
      → w.sign_enabled ≡ true
      → get_key_pair garbage w.keys w.current_index ≡ key_pair (s.sk_to_pk sk) (some (region sk a))
      → length sk ≡ 64
      → length (chosen_message w) ≢ 0
      → (final : SignWidget) × (run_events b k m s garbage (sign_then_verify (s.sk_to_pk sk)) w
          ≡ ok final)
        × (final.status ≡ "Correct signature!")
  unfolding run_events step asked activate_verification_mode insert_verification_key can_verify
      can_sign enable_signing chosen_message
  sign-verify w sk a enabled selected l ne =
      let pk = s.sk_to_pk sk in
      let msg = chosen_message w in
      let ready : SignWidget = asked (signed w pk sk msg) pk in
      (
        record ready { status = "Correct signature!" },
        run-step sign (verify_mode ∷ key_typed (b.encode pk) ∷ verify ∷ []) w (signed w pk sk msg)
              (step-sign w pk sk msg a enabled selected refl ne)
            ∙ run-asked (signed w pk sk msg) pk (verify ∷ [])
            ∙ rw
                (verify_signature_slot_accepts b s ready (s.sign msg sk) pk msg refl refl refl
                  (s.sign_length msg sk) (s.sk_to_pk_length sk) ne (s.verify-sign msg sk l))
                refl,
        refl,
      )
