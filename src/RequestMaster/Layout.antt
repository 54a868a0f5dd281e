-- ===== src/RequestMaster/Layout.antt =====
-- The bytes that `RequestMaster::form` lays out, and the keys that `formCommonKeys` emits
-- (qt/src/requestmaster.cpp).
use Prim.Native.String.{String}
use mathlib.Core.List.{append_assoc, append-nil}
use cscrypto.Base.{
  ℕ, ◌+◌, ◌-◌, ◌%◌, ◌^◌, ◌≡◌, refl, Bool, true, false, Option, some, List, [], ◌∷◌, ◌++◌,
  if◌then◌else◌, length, length-append, length-drop, length-replicate, take, drop, drop_all,
  take-append_at, replicate, arith, ok, ◌>>=◌, copy_to, copy_to-middle,
}
use cscrypto.Sodium.Memory.{region, no_access, SodiumMemory}
use cscrypto.Sodium.Sign.{SodiumSign}
use cscrypto.Sodium.Kx.{SodiumKx}
use cscrypto.MainCryptoFunctions.{generate_signature, with_access_lem}
use cscrypto.KeyExchange.{exchange_keys}
use cscrypto.KeyExchange.Agreement.{
  get_pub_exchange_key_lem, get_client_session_keys_lem, get_server_session_keys_lem,
}
use cscrypto.RequestMaster.{
  RequestType, RequestMaster, request_size, to_size, keys_for_reply, form_signed, form,
  form_common_keys, signals,
}

-- The master with its private key locked.
abbrev pub locked : RequestMaster → RequestMaster
locked w = record w { own_sk = region w.own_sk.bytes no_access }

-- The part of a request that is signed, with its type in front.
abbrev pub unsigned : RequestType → (pk epk : List ℕ) → List ℕ
unsigned type pk epk = type ∷ pk ++ epk

-- The buffer of `form` while it is filled.
zeros_left : List ℕ
zeros_left = replicate 128 0

unsigned-length :
    (type : RequestType) (pk epk : List ℕ)
    → length pk ≡ 32
    → length epk ≡ 32
    → length (unsigned type pk epk) ≡ 65
unsigned-length type pk epk l l' = omega (arith, length-append pk epk)

type_placed :
    (type : RequestType)
    → copy_to (replicate ((to_size (some 128) + 1) % 2 ^ 64) 0) 0 (type ∷ [])
      ≡ ok ((type ∷ []) ++ replicate 128 0)
unfolding to_size copy_to
type_placed type = refl

signed_part :
    (type : RequestType) (pk epk tail : List ℕ)
    → length tail ≡ 64
    → take (length (type ∷ pk ++ (epk ++ tail)) - 64) (type ∷ pk ++ (epk ++ tail))
      ≡ unsigned type pk epk
signed_part type pk epk tail l = rw (← append_assoc pk epk tail) (
    take-append_at (length (type ∷ (pk ++ epk) ++ tail) - 64) (unsigned type pk epk) tail
      (omega (arith, length-append (pk ++ epk) tail)))

signature_placed :
    (type : RequestType) (pk epk tail sig : List ℕ)
    → length pk ≡ 32
    → length epk ≡ 32
    → length tail ≡ 64
    → length sig ≡ 64
    → copy_to (type ∷ pk ++ (epk ++ tail)) 65 sig ≡ ok (type ∷ pk ++ epk ++ sig)
signature_placed type pk epk tail sig l l' t g =
    rw
      (
        ← append_assoc pk epk tail,
        copy_to-middle 65 (unsigned type pk epk) tail sig (unsigned-length type pk epk l l')
            (omega arith),
        drop_all (length sig) tail (omega arith),
        append-nil sig,
        append_assoc pk epk sig,
      )
      refl

module _ (encode : List ℕ → String) (m : SodiumMemory) (s : SodiumSign) (k : SodiumKx) where
  -- The request for these keys, without its type.
  abbrev pub body : RequestType → (pk epk sk : List ℕ) → List ℕ
  body type pk epk sk = pk ++ epk ++ s.sign (unsigned type pk epk) sk

  pub form_signed_lem :
      (type : RequestType) (rest epk : List ℕ) (w : RequestMaster)
      → length w.own_pk ≡ 32
      → length epk ≡ 32
      → length rest ≡ 96
      → form_signed encode m s k type (type ∷ w.own_pk ++ rest) w (some epk) ≡ (do
        (w', emitted) ← keys_for_reply encode m s k type (locked w)
        ok (record {
          request = type ∷ body type w.own_pk epk w.own_sk.bytes;
          master = w';
          emitted = emitted;
        }))
  unfolding form_signed generate_signature
  form_signed_lem type rest epk w l l' r =
      let tail = drop (length epk) rest in
      let size : length tail ≡ 64 = omega (arith, length-drop (length epk) rest) in
      rw
        (
          copy_to-middle 33 (type ∷ w.own_pk) rest epk (omega arith) (omega arith),
          with_access_lem m w.own_sk,
          signed_part type w.own_pk epk tail size,
          signature_placed type w.own_pk epk tail
              (s.sign (unsigned type w.own_pk epk) w.own_sk.bytes) l l' size
              (s.sign_length (unsigned type w.own_pk epk) w.own_sk.bytes),
        )
        refl

  -- A query or a reply of a master with keys.
  pub form_lem :
      (type : RequestType) (w : RequestMaster) (epk esk : List ℕ)
      → request_size type ≡ some 128
      → w.valid_own_keys ≡ true
      → length w.own_pk ≡ 32
      → exchange_keys s k w.own_sk.bytes ≡ some (epk, esk)
      → length epk ≡ 32
      → form encode m s k type w ≡ (do
        (w', emitted) ← keys_for_reply encode m s k type (locked w)
        ok (record {
          request = type ∷ body type w.own_pk epk w.own_sk.bytes;
          master = w';
          emitted = emitted;
        }))
  unfolding form to_size
  form_lem type w epk esk t v l e l' =
      simp
        (
          v,
          t,
          type_placed type,
          copy_to-middle 1 (type ∷ []) (replicate 128 0) w.own_pk refl (omega arith),
          get_pub_exchange_key_lem m s k w.own_sk epk esk e,
        )
        (form_signed_lem type (drop (length w.own_pk) (replicate 128 0)) epk
          (record (locked w) { valid_own_keys = true }) l l'
          (omega (
            arith,
            length-drop (length w.own_pk) (replicate {A = ℕ} 128 0),
            length-replicate {A = ℕ} 128 0,
          )))

  -- The session keys that a master can form.
  unfoldable pub session_keys : RequestMaster → (epk esk : List ℕ) → Option (List ℕ × List ℕ)
  session_keys w epk esk =
      if w.server_side
      then k.server epk esk w.exchange_pub_key
      else k.client epk esk w.exchange_pub_key

  pub form_common_keys_lem :
      (w : RequestMaster) (epk esk : List ℕ)
      → exchange_keys s k w.own_sk.bytes ≡ some (epk, esk)
      → form_common_keys encode m s k w ≡ ok (locked w, signals encode (session_keys w epk esk))
  unfolding form_common_keys session_keys
  form_common_keys_lem w epk esk e = go w.server_side refl
    where
      go :
          (side : Bool)
          → w.server_side ≡ side
          → form_common_keys encode m s k w ≡ ok (locked w, signals encode (session_keys w epk esk))
      go true h =
          simp
            (
              form_common_keys,
              session_keys,
              h,
              get_server_session_keys_lem m s k w.own_sk epk esk w.exchange_pub_key e,
            )
            refl
      go false h =
          simp
            (
              form_common_keys,
              session_keys,
              h,
              get_client_session_keys_lem m s k w.own_sk epk esk w.exchange_pub_key e,
            )
            refl
