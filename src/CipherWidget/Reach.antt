-- ===== src/CipherWidget/Reach.antt =====
-- What holds of the tab after any events, and how the Start button comes to be enabled.
use mathlib.Core.Option.{some-injective}
use cscrypto.Base.{
  subst, ℕ, ◌≡◌, ◌≤◌, refl, sym, ap, ◌∙◌, Bool, true, false, ◌||◌, List, [], ◌∷◌, arith, length, ok,
}
use cscrypto.Base58.{Base58}
use cscrypto.Blake2.{Blake2}
use cscrypto.Cipher.{FileSystem}
use cscrypto.Sodium.Aead.{SodiumPwhash}
use cscrypto.Sodium.Memory.{SodiumMemory}
use cscrypto.Sodium.SecretStream.{SecretStream}
use cscrypto.CipherWidget.{CipherWidget, initial}
use cscrypto.CipherWidget.Events.{Event, run_events}
use cscrypto.CipherWidget.Ready.{IsReady}
use cscrypto.CipherWidget.Starts.{Hashes, IsKeyText}
use cscrypto.CipherWidget.Steps.{
  chooses_source, chooses_target, chooses_mode, cancels, any_event, AllOffer, IsSound, or_false,
  step-Goes,
}

left_or : (b y : Bool) → b ≡ true → (b || y) ≡ true
left_or true y h = refl
left_or false y h = cc

right_or : (b : Bool) → (b || true) ≡ true
right_or true = refl
right_or false = refl

-- Two steps in a row.
then_or :
    (a x y b c : Bool)
    → ((a || x) ≡ true → b ≡ true)
    → ((b || y) ≡ true → c ≡ true)
    → (a || (x || y)) ≡ true
    → c ≡ true
then_or true x y b c f g h = g (left_or b y (f refl))
then_or false true y b c f g h = g (left_or b y (f refl))
then_or false false true b c f g h = g (right_or b)
then_or false false false b c f g h = cc

pub initial-IsSound : (b58 : Base58) (fs : FileSystem) → IsSound b58 (initial fs)
unfolding initial
initial-IsSound b58 fs = (record { ready = refl; one_mode = refl }, empty, empty)
  where
    empty : IsKeyText b58 ""
    empty bytes decoded =
        let none_of : [] ≡ bytes = some-injective [] bytes (sym b58.decode_empty ∙ decoded) in
        subst (λ (x : List ℕ). length x ≤ 32) none_of (omega arith)

module _ (b58 : Base58) (m : SodiumMemory) (b : Blake2) (ph : SodiumPwhash) (stream : SecretStream)
    (fresh garbage random stack : List ℕ) (hashes : Hashes ph) (l : length fresh ≡ 32) where
  run_events-Goes :
      (es : List Event) (w : CipherWidget)
      → AllOffer b58 es
      → IsSound b58 w
      → (w' : CipherWidget) × (run_events b58 m b ph stream fresh garbage random stack es w ≡ ok w')
        × IsSound b58 w'
        × (any_event cancels es ≡ false
            → ((w.source_file_loaded || any_event chooses_source es) ≡ true
                → w'.source_file_loaded ≡ true)
              × ((w.target_file_loaded || any_event chooses_target es) ≡ true
                  → w'.target_file_loaded ≡ true)
              × (((w.encryption_mode || w.decryption_mode) || any_event chooses_mode es) ≡ true
                  → (w'.encryption_mode || w'.decryption_mode) ≡ true))
  unfolding run_events
  run_events-Goes [] w o h = (w, refl, h, λ c. (or_false _, or_false _, or_false _))
  run_events-Goes (e ∷ es) w o h =
      let (next, stepped, sound, keeps) =
        step-Goes b58 m b ph stream fresh garbage random stack hashes l e w o.0 h in
      let (last, ran, sound', keeps') = run_events-Goes es next o.1 sound in
      (
        last,
        rw stepped ran,
        sound',
        λ c.
            let k = keeps (ground (arith, c)) in
            let k' = keeps' (ground (arith, c)) in
            (
              then_or w.source_file_loaded (chooses_source e) _ _ _ k.0 k'.0,
              then_or w.target_file_loaded (chooses_target e) _ _ _ k.1 k'.1,
              then_or (w.encryption_mode || w.decryption_mode) (chooses_mode e) _ _ _ k.2 k'.2,
            ),
      )

  -- What a user does with a new tab, in any order: if every password can be hashed, a new key
  -- has 32 bytes and every key that is stored has 32 bytes at most, nothing faults, the Start
  -- button is at the end enabled exactly when a source file, a target file and a mode are
  -- chosen, and at most one mode is.
  pub run_events-IsReady :
      (fs : FileSystem) (es : List Event)
      → AllOffer b58 es
      → (w : CipherWidget) × (run_events b58 m b ph stream fresh garbage random stack es
            (initial fs)
          ≡ ok w)
        × IsReady w
  run_events-IsReady fs es o =
      let (w, ran, sound, _) = run_events-Goes es (initial fs) o (initial-IsSound b58 fs) in
      (w, ran, sound.0)

  -- From any state in which at most one mode is chosen, the Start button is enabled exactly when
  -- a mode and both files are, and the chosen keys have 32 bytes at most, where every password
  -- can be hashed, a new key has 32 bytes and every key that is stored has 32 bytes at most:
  -- events among which a source file, a target file and a mode are chosen, in whatever order,
  -- and no dialog for a file is cancelled, end without a fault with the Start button enabled.
  pub run_events-enables :
      (w : CipherWidget) (es : List Event)
      → IsSound b58 w
      → AllOffer b58 es
      → any_event cancels es ≡ false
      → any_event chooses_source es ≡ true
      → any_event chooses_target es ≡ true
      → any_event chooses_mode es ≡ true
      → (w' : CipherWidget) × (run_events b58 m b ph stream fresh garbage random stack es w ≡ ok w')
        × (w'.start_enabled ≡ true)
  run_events-enables w es h o c source target mode =
      let (w', ran, sound, keeps) = run_events-Goes es w o h in
      let kept = keeps c in
      let source' = kept.0 (ap (λ (x : Bool). w.source_file_loaded || x) source ∙ right_or _) in
      let target' = kept.1 (ap (λ (x : Bool). w.target_file_loaded || x) target ∙ right_or _) in
      let mode' =
        kept.2
          (ap (λ (x : Bool). (w.encryption_mode || w.decryption_mode) || x) mode ∙ right_or _) in
      (w', ran, ground (arith, sound.0.ready, source', target', mode'))
