-- ===== src/Cipher/Chunks.antt =====
-- The loops of `encryptFile` and `decryptFile` in src/cipher.cpp: what they do with the chunks of a
-- file.
use cscrypto.Base.{
  ℕ, suc, ◌≤◌, ◌<◌, ◌≡◌, refl, none, some, List, ◌++◌, arith, length, take, drop, length-take,
  drop-append_at, take-append_at, take_all, lt→ltb, le→not_ltb,
}
use cscrypto.Sodium.SecretStream.{SecretStream, tag_message, tag_final}
use cscrypto.Cipher.{encrypt_loop, decrypt_loop, accepted, rejected}

module _ (stream : SecretStream) where
  open stream use {PushState, PullState, push, pull, Synced, push_length, pull-push}

  -- The last chunk, which is short.
  pub encrypt_loop-last :
      (fuel : ℕ) (p : PushState) (rest out : List ℕ)
      → length rest < 4096
      → encrypt_loop stream (suc fuel) p rest out ≡ some (out ++ (push p rest tag_final).1)
  unfolding encrypt_loop
  encrypt_loop-last fuel p rest out h =
      rw (take_all 4096 rest (omega arith), lt→ltb (length rest) 4096 h) refl

  pub encrypt_loop-full :
      (fuel : ℕ) (p : PushState) (rest out : List ℕ)
      → 4096 ≤ length rest
      → encrypt_loop stream (suc fuel) p rest out
        ≡ encrypt_loop stream fuel
            (push p (take 4096 rest) tag_message).0
            (drop 4096 rest)
            (out ++ (push p (take 4096 rest) tag_message).1)
  unfolding encrypt_loop
  encrypt_loop-full fuel p rest out h =
      rw (le→not_ltb (length (take 4096 rest)) 4096 (omega (arith, length-take 4096 rest))) refl

  pub decrypt_loop-last :
      (fuel : ℕ) (q q' : PullState) (rest out plain : List ℕ) (tag : ℕ)
      → length rest < 4113
      → pull q rest ≡ some (q', plain, tag)
      → decrypt_loop stream (suc fuel) q rest out ≡ accepted (out ++ plain)
  unfolding decrypt_loop
  decrypt_loop-last fuel q q' rest out plain tag h e =
      rw
        (
          decrypt_loop,
          take_all 4113 rest (omega arith),
          e,
          take_all 4113 rest (omega arith),
          lt→ltb (length rest) 4113 h,
        )
        (ground arith)

  pub decrypt_loop-full :
      (fuel : ℕ) (q q' : PullState) (chunk rest out plain : List ℕ)
      → length chunk ≡ 4113
      → pull q chunk ≡ some (q', plain, tag_message)
      → decrypt_loop stream (suc fuel) q (chunk ++ rest) out
        ≡ decrypt_loop stream fuel q' rest (out ++ plain)
  unfolding decrypt_loop
  decrypt_loop-full fuel q q' chunk rest out plain h e =
      rw
        (
          decrypt_loop,
          take-append_at 4113 chunk rest h,
          e,
          take-append_at 4113 chunk rest h,
          le→not_ltb (length chunk) 4113 (omega arith),
          drop-append_at 4113 chunk rest h,
        )
        refl

  -- A chunk that is refused.
  pub decrypt_loop-refused :
      (fuel : ℕ) (q : PullState) (rest out : List ℕ)
      → pull q (take 4113 rest) ≡ none
      → decrypt_loop stream (suc fuel) q rest out ≡ rejected out
  unfolding decrypt_loop
  decrypt_loop-refused fuel q rest out e = rw (decrypt_loop, e) refl
