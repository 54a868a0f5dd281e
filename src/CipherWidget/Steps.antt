-- ===== src/CipherWidget/Steps.antt =====
-- Each event, on a state whose Start button is enabled when it should be.
use Prim.Native.String.{String}
use cscrypto.Base.{
  ℕ, ◌+◌, ◌≡◌, refl, ap, Bool, true, false, ◌&&◌, ◌||◌, none, some, List, [], ◌∷◌, arith, length,
  if◌then◌else◌, Outcome, ok,
}
use cscrypto.Base58.{Base58}
use cscrypto.Blake2.{Blake2}
use cscrypto.Sodium.Aead.{SodiumPwhash}
use cscrypto.Sodium.Memory.{SodiumMemory}
use cscrypto.Sodium.SecretStream.{SecretStream}
use cscrypto.CipherWidget.{
  CipherWidget, start_if_loaded, activate_encryption_mode, activate_decryption_mode,
  get_src_file_name, get_trg_file_name,
}
use cscrypto.CipherWidget.Events.{
  Event, source_chosen, target_chosen, encryption, decryption, use_keys_clicked, start_clicked,
  pswd_typed, enc_key_chosen, dec_key_chosen, keys_stored, step,
}
use cscrypto.CipherWidget.Ready.{
  IsReady, Shown, get_src_file_name-IsReady, get_trg_file_name-IsReady,
  analyze_use_keys_status-Shown, set_use_keys-Shown, update_use_keys_check_box-Shown,
}
use cscrypto.CipherWidget.Starts.{Hashes, IsKeyText, start-Changed}

abbrev pub chooses_source : Event → Bool
chooses_source (source_chosen (some name)) = true
chooses_source _ = false

abbrev pub chooses_target : Event → Bool
chooses_target (target_chosen (some name)) = true
chooses_target _ = false

abbrev pub chooses_mode : Event → Bool
chooses_mode encryption = true
chooses_mode decryption = true
chooses_mode _ = false

abbrev pub cancels : Event → Bool
cancels (source_chosen none) = true
cancels (target_chosen none) = true
cancels _ = false

-- One of the events passes the test.
abbrev pub any_event : (Event → Bool) → List Event → Bool
any_event test [] = false
any_event test (e ∷ es) = test e || any_event test es

-- The keys of the combo boxes come from a key exchange and have the size of a key.
abbrev pub OffersKey : Base58 → Event → Type 0
OffersKey b58 (enc_key_chosen text) = IsKeyText b58 text
OffersKey b58 (dec_key_chosen text) = IsKeyText b58 text
OffersKey b58 _ = Unit {0}

abbrev pub AllOffer : Base58 → List Event → Type 0
AllOffer b58 [] = Unit {0}
AllOffer b58 (e ∷ es) = OffersKey b58 e × AllOffer b58 es

abbrev pub IsSound : Base58 → CipherWidget → Type 0
IsSound b58 w = IsReady w × IsKeyText b58 w.enc_key × IsKeyText b58 w.dec_key

-- What was chosen stays chosen.
abbrev pub Keeps : Event → CipherWidget → CipherWidget → Type 0
Keeps e w w' =
    ((w.source_file_loaded || chooses_source e) ≡ true → w'.source_file_loaded ≡ true)
    × ((w.target_file_loaded || chooses_target e) ≡ true → w'.target_file_loaded ≡ true)
    × (((w.encryption_mode || w.decryption_mode) || chooses_mode e) ≡ true
        → (w'.encryption_mode || w'.decryption_mode) ≡ true)

pub or_false : (a : Bool) → (a || false) ≡ true → a ≡ true
or_false true h = refl
or_false false h = h

module _ (b58 : Base58) (m : SodiumMemory) (b : Blake2) (ph : SodiumPwhash) (stream : SecretStream)
    (fresh garbage random stack : List ℕ) (hashes : Hashes ph) (l : length fresh ≡ 32) where
  abbrev pub Goes : Event → CipherWidget → Outcome CipherWidget → Type 0
  Goes e w result =
      (w' : CipherWidget) × (result ≡ ok w') × IsSound b58 w' × (cancels e ≡ false → Keeps e w w')

  abbrev IsNeutral : Event → Type 0
  IsNeutral e = (chooses_source e ≡ false) × (chooses_target e ≡ false) × (chooses_mode e ≡ false)

  Keeps-same : (e : Event) (w : CipherWidget) → IsNeutral e → Keeps e w w
  Keeps-same e w (s, t, d) =
      (λ x. ground (arith, s, x), λ x. ground (arith, t, x), λ x. ground (arith, d, x))

  if_Goes :
      (e : Event) (on : Bool) (w : CipherWidget) (run : Outcome CipherWidget)
      → IsNeutral e
      → IsSound b58 w
      → Goes e w run
      → Goes e w (if on then run else ok w)
  if_Goes e true w run n h goes = goes
  if_Goes e false w run n h goes = (w, refl, h, λ c. Keeps-same e w n)

  -- An event that only changes what is shown.
  Shown-Goes :
      (e : Event) (w w' : CipherWidget)
      → IsNeutral e
      → IsSound b58 w
      → Shown w w'
      → Goes e w (ok w')
  Shown-Goes e w w' n h (a, u, p, q, r, text, same) = (_, ap ok same, h, λ c. Keeps-same e w n)

  mode-Goes :
      (e : Event) (enc dec : Bool) (text : String) (w : CipherWidget)
      → (enc || dec) ≡ true
      → (enc && dec) ≡ false
      → chooses_source e ≡ false
      → chooses_target e ≡ false
      → IsSound b58 w
      → (w' : CipherWidget)
      → Shown (record w { status = text; encryption_mode = enc; decryption_mode = dec }) w'
      → Goes e w (ok (start_if_loaded w'))
  unfolding start_if_loaded
  mode-Goes e enc dec text w on one s t h w' (a, u, p, q, r, said, same) =
      let started = λ (x : CipherWidget). ok (start_if_loaded x) in
      (
        _,
        ap started same,
        (record { ready = ground (arith, on, h.0.ready); one_mode = one }, h.1, h.2),
        λ c. (λ x. ground (arith, s, x), λ x. ground (arith, t, x), λ x. on),
      )

  pub step-Goes :
      (e : Event) (w : CipherWidget)
      → OffersKey b58 e
      → IsSound b58 w
      → Goes e w (step b58 m b ph stream fresh garbage random stack e w)
  unfolding step activate_encryption_mode activate_decryption_mode get_src_file_name
      get_trg_file_name
  step-Goes (source_chosen none) w o h =
      (_, refl, (get_src_file_name-IsReady none w h.0, h.1, h.2), λ c. cc)
  step-Goes (source_chosen (some name)) w o h = (
    _,
    refl,
    (get_src_file_name-IsReady (some name) w h.0, h.1, h.2),
    λ c. (
      λ x. refl,
      or_false w.target_file_loaded,
      or_false (w.encryption_mode || w.decryption_mode),
    ),
  )
  step-Goes (target_chosen none) w o h =
      (_, refl, (get_trg_file_name-IsReady none w h.0, h.1, h.2), λ c. cc)
  step-Goes (target_chosen (some name)) w o h = (
    _,
    refl,
    (get_trg_file_name-IsReady (some name) w h.0, h.1, h.2),
    λ c. (
      or_false w.source_file_loaded,
      λ x. refl,
      or_false (w.encryption_mode || w.decryption_mode),
    ),
  )
  step-Goes encryption w o h =
      mode-Goes encryption true false "Encryption mode activated." w refl refl refl refl h _
        (analyze_use_keys_status-Shown w.use_keys _)
  step-Goes decryption w o h =
      mode-Goes decryption false true "Decryption mode activated." w refl refl refl refl h _
        (analyze_use_keys_status-Shown w.use_keys _)
  step-Goes use_keys_clicked w o h =
      if_Goes use_keys_clicked w.use_keys_enabled w _ (refl, refl, refl) h
        (Shown-Goes use_keys_clicked w _ (refl, refl, refl) h
          (set_use_keys-Shown (if w.use_keys then false else true) w))
  step-Goes start_clicked w o h =
      if_Goes start_clicked w.start_enabled w _ (refl, refl, refl) h
        (let (files, status, run) =
            start-Changed b58 m b ph stream fresh garbage random stack w hashes l h.1 h.2 in
          (_, run, h, λ c. Keeps-same start_clicked w (refl, refl, refl)))
  step-Goes (pswd_typed text) w o h =
      (_, refl, h, λ c. Keeps-same (pswd_typed text) w (refl, refl, refl))
  step-Goes (enc_key_chosen text) w o h =
      (_, refl, (h.0, o, h.2), λ c. Keeps-same (enc_key_chosen text) w (refl, refl, refl))
  step-Goes (dec_key_chosen text) w o h =
      (_, refl, (h.0, h.1, o), λ c. Keeps-same (dec_key_chosen text) w (refl, refl, refl))
  step-Goes keys_stored w o h =
      Shown-Goes keys_stored (record w { stored = w.stored + 1 }) _ (refl, refl, refl) h
        (update_use_keys_check_box-Shown (record w { stored = w.stored + 1 }))
