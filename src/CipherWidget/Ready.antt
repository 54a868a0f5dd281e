-- ===== src/CipherWidget/Ready.antt =====
-- When the Start button can be used.
use Prim.Native.String.{String}
use cscrypto.Base.{
  ◌≡◌, inl, inr, refl, ◌∙◌, Bool, Bool-cases, true, false, ◌&&◌, ◌||◌, Option, none, some, arith,
  ltb, if_true, if_false, if◌then◌else◌,
}
use cscrypto.Cipher.{FileName}
use cscrypto.CipherWidget.{
  CipherWidget, has_mode, get_src_file_name, get_trg_file_name, analyze_use_keys_status,
  set_use_keys, update_use_keys_check_box,
}

-- The Start button is enabled exactly when both files and a mode are chosen, and there is one mode at
-- most.
pub record Fits (source target enc dec start_enabled : Bool) : Type 0 where
  pub ready : start_enabled ≡ (source && target && (enc || dec))
  pub one_mode : (enc && dec) ≡ false

abbrev pub IsReady : CipherWidget → Type 0
IsReady w =
    Fits w.source_file_loaded w.target_file_loaded w.encryption_mode w.decryption_mode
      w.start_enabled

pub get_src_file_name-IsReady :
    (name : Option FileName) (w : CipherWidget) → IsReady w → IsReady (get_src_file_name name w)
unfolding get_src_file_name has_mode
get_src_file_name-IsReady none w h = record { ready = refl; one_mode = h.one_mode }
get_src_file_name-IsReady (some name) w h = record {
  ready = ground (arith, h.ready);
  one_mode = h.one_mode;
}

pub get_trg_file_name-IsReady :
    (name : Option FileName) (w : CipherWidget) → IsReady w → IsReady (get_trg_file_name name w)
unfolding get_trg_file_name has_mode
get_trg_file_name-IsReady none w h = record { ready = ground arith; one_mode = h.one_mode }
get_trg_file_name-IsReady (some name) w h = record {
  ready = ground (arith, h.ready);
  one_mode = h.one_mode;
}

-- A change of what is shown, of the check box and of the status bar, and of nothing else.
abbrev pub Shown : CipherWidget → CipherWidget → Type 0
Shown w w' =
    (use_keys_enabled use_keys pswd_shown enc_shown dec_shown : Bool) × (status : String) × (w'
      ≡ record w {
        use_keys_enabled = use_keys_enabled;
        use_keys = use_keys;
        pswd_shown = pswd_shown;
        enc_shown = enc_shown;
        dec_shown = dec_shown;
        status = status;
      })

pub analyze_use_keys_status-Shown :
    (on : Bool) (w : CipherWidget) → Shown w (analyze_use_keys_status on w)
unfolding analyze_use_keys_status
analyze_use_keys_status-Shown false w =
    (w.use_keys_enabled, w.use_keys, true, false, false, w.status, refl)
analyze_use_keys_status-Shown true w = elim (Bool-cases w.encryption_mode) [
  | inl enc ↦ (
    w.use_keys_enabled,
    w.use_keys,
    false,
    true,
    false,
    w.status,
    if_true w.encryption_mode _ _ enc,
  )
  | inr not_enc ↦ elim (Bool-cases w.decryption_mode) [
    | inl dec ↦ (
      w.use_keys_enabled,
      w.use_keys,
      false,
      false,
      true,
      w.status,
      if_false w.encryption_mode _ _ not_enc ∙ if_true w.decryption_mode _ _ dec,
    )
    | inr not_dec ↦ (
      w.use_keys_enabled,
      w.use_keys,
      false,
      w.enc_shown,
      w.dec_shown,
      "Check mode to start encryption / decryption!",
      if_false w.encryption_mode _ _ not_enc ∙ if_false w.decryption_mode _ _ not_dec,
    )
  ]
]

either-Shown :
    (on : Bool) (w a b : CipherWidget) → Shown w a → Shown w b → Shown w (if on then a else b)
either-Shown true w a b h h' = h
either-Shown false w a b h h' = h'

self-Shown : (w : CipherWidget) → Shown w w
self-Shown w =
    (w.use_keys_enabled, w.use_keys, w.pswd_shown, w.enc_shown, w.dec_shown, w.status, refl)

-- Two changes in a row.
Shown-enabled :
    (e u : Bool) (w w' : CipherWidget)
    → Shown (record w { use_keys_enabled = e; use_keys = u }) w'
    → Shown w w'
Shown-enabled e u w w' h = h

pub set_use_keys-Shown : (on : Bool) (w : CipherWidget) → Shown w (set_use_keys on w)
unfolding set_use_keys
set_use_keys-Shown true w = either-Shown w.use_keys w w _ (self-Shown w) (
    Shown-enabled w.use_keys_enabled true w _
      (analyze_use_keys_status-Shown true (record w { use_keys = true })))
set_use_keys-Shown false w =
    either-Shown w.use_keys w _ w
      (Shown-enabled w.use_keys_enabled false w _
        (analyze_use_keys_status-Shown false (record w { use_keys = false })))
      (self-Shown w)

pub update_use_keys_check_box-Shown : (w : CipherWidget) → Shown w (update_use_keys_check_box w)
unfolding update_use_keys_check_box
update_use_keys_check_box-Shown w =
    either-Shown (ltb 0 w.stored) w _ _
      (Shown-enabled true w.use_keys w _ (self-Shown (record w { use_keys_enabled = true })))
      (Shown-enabled false w.use_keys w _
        (set_use_keys-Shown false (record w { use_keys_enabled = false })))
