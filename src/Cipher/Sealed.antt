-- ===== src/Cipher/Sealed.antt =====
-- The chunks that `encryptFile` of src/cipher.cpp writes, and how `decryptFile` reads them, whole or
-- cut.
use cscrypto.Base.{
  ℕ, zero, suc, ◌+◌, ◌*◌, ◌/◌, ◌≤◌, ◌<◌, ◌≡◌, ◌≢◌, inl, inr, refl, subst, Bool, true, false, not,
  ◌&&◌, lt-cases, Option, none, some, List, [], ◌++◌, arith, ltb, ◌==◌, length, take, drop,
  length-append, length-take, length-drop, take-append_drop, take-add, take-append_more,
  if◌then◌else◌, lt→ltb, le→not_ltb,
}
use mathlib.Core.List.{append_assoc, append-nil}
use cscrypto.Sodium.SecretStream.{SecretStream, tag_message, tag_final}
use cscrypto.Cipher.{encrypt_loop, decrypt_loop, Ending, accepted, rejected, out_of_fuel}
use cscrypto.Cipher.Chunks.{
  encrypt_loop-last, encrypt_loop-full, decrypt_loop-last, decrypt_loop-full, decrypt_loop-refused,
}

mul-suc : (n k : ℕ) → n * suc k ≡ n + n * k
mul-suc n k = grind arith

full_read : (rest : List ℕ) → ltb (length (take 4113 rest)) 4113 ≡ false → 4113 ≤ length rest
full_read rest full = ground (arith, full, length-take 4113 rest)

branch_ends :
    (final eof : Bool) (out written : List ℕ) (more : Ending)
    → (eof ≡ false → more ≢ out_of_fuel)
    → (if final && not eof then rejected out else (if eof then accepted written else more))
      ≢ out_of_fuel
branch_ends true true out written more h = ground arith
branch_ends true false out written more h = ground arith
branch_ends false true out written more h = ground arith
branch_ends false false out written more h = h refl

module _ (stream : SecretStream) where
  open stream use {PushState, PullState, push, pull, Synced, push_length, pull-push}

  -- What the loop of `encryptFile` writes for a rest of a file.
  pub sealed : ℕ → PushState → List ℕ → List ℕ
  sealed zero p rest = []
  sealed (suc fuel) p rest =
      let more = sealed fuel (push p (take 4096 rest) tag_message).0 (drop 4096 rest) in
      if ltb (length rest) 4096
      then (push p rest tag_final).1
      else (push p (take 4096 rest) tag_message).1 ++ more

  sealed-last :
      (fuel : ℕ) (p : PushState) (rest : List ℕ)
      → length rest < 4096
      → sealed (suc fuel) p rest ≡ (push p rest tag_final).1
  unfolding sealed
  sealed-last fuel p rest h = rw (lt→ltb (length rest) 4096 h) refl

  sealed-full :
      (fuel : ℕ) (p : PushState) (rest : List ℕ)
      → 4096 ≤ length rest
      → sealed (suc fuel) p rest
        ≡ (push p (take 4096 rest) tag_message).1
          ++ sealed fuel (push p (take 4096 rest) tag_message).0 (drop 4096 rest)
  unfolding sealed
  sealed-full fuel p rest h = rw (le→not_ltb (length rest) 4096 h) refl

  -- The loop ends with enough fuel, and has appended the chunks.
  pub encrypt_loop-sealed :
      (fuel : ℕ) (p : PushState) (rest out : List ℕ)
      → length rest < 4096 * fuel
      → encrypt_loop stream fuel p rest out ≡ some (out ++ sealed fuel p rest)
  encrypt_loop-sealed zero p rest out h = absurd (omega arith)
  encrypt_loop-sealed (suc fuel) p rest out h = elim (lt-cases (length rest) 4096) [
    | inl short ↦
        rw (encrypt_loop-last stream fuel p rest out short, sealed-last fuel p rest short) refl
    | inr full ↦
        rw
          (
            encrypt_loop-full stream fuel p rest out full,
            sealed-full fuel p rest full,
            ← append_assoc out (push p (take 4096 rest) tag_message).1
                (sealed fuel (push p (take 4096 rest) tag_message).0 (drop 4096 rest)),
          )
          (encrypt_loop-sealed fuel (push p (take 4096 rest) tag_message).0 (drop 4096 rest)
            (out ++ (push p (take 4096 rest) tag_message).1) (omega (arith, length-drop 4096 rest)))
  ]

  full_chunk :
      (p : PushState) (rest : List ℕ)
      → 4096 ≤ length rest
      → length (push p (take 4096 rest) tag_message).1 ≡ 4113
  full_chunk p rest h =
      omega (arith, push_length p (take 4096 rest) tag_message, length-take 4096 rest)

  pub length-sealed :
      (fuel : ℕ) (p : PushState) (rest : List ℕ)
      → length rest < 4096 * fuel
      → length (sealed fuel p rest) ≡ length rest + 17 * (length rest / 4096 + 1)
  length-sealed zero p rest h = absurd (omega arith)
  length-sealed (suc fuel) p rest h = elim (lt-cases (length rest) 4096) [
    | inl short ↦ rw (sealed-last fuel p rest short) (omega (arith, push_length p rest tag_final))
    | inr full ↦
        let p' = (push p (take 4096 rest) tag_message).0 in
        rw
          (
            sealed-full fuel p rest full,
            length-append (push p (take 4096 rest) tag_message).1 (sealed fuel p' (drop 4096 rest)),
            length-sealed fuel p' (drop 4096 rest) (omega (arith, length-drop 4096 rest)),
            full_chunk p rest full,
            length-drop 4096 rest,
          )
          (omega arith)
  ]

  -- Between ends in step, the loop of `decryptFile` undoes that of `encryptFile`.
  pub decrypt_loop-sealed :
      (fuel reads : ℕ) (p : PushState) (q : PullState) (rest out : List ℕ)
      → Synced p q
      → length rest < 4096 * fuel
      → length (sealed fuel p rest) < 4113 * reads
      → decrypt_loop stream reads q (sealed fuel p rest) out ≡ accepted (out ++ rest)
  decrypt_loop-sealed zero reads p q rest out s h r = absurd (omega arith)
  decrypt_loop-sealed (suc fuel) zero p q rest out s h r = absurd (omega arith)
  decrypt_loop-sealed (suc fuel) (suc reads) p q rest out s h r =
      elim (lt-cases (length rest) 4096) [
        | inl short ↦
            let (q', pulled, s') = pull-push p q rest tag_final s in
            rw (sealed-last fuel p rest short) (
              decrypt_loop-last stream reads q q' (push p rest tag_final).1 out rest tag_final
                (omega (arith, push_length p rest tag_final)) pulled)
        | inr full ↦
            let (q', pulled, s') = pull-push p q (take 4096 rest) tag_message s in
            let chunk = (push p (take 4096 rest) tag_message).1 in
            let p' = (push p (take 4096 rest) tag_message).0 in
            let more = sealed fuel p' (drop 4096 rest) in
            rw
              (
                sealed-full fuel p rest full,
                decrypt_loop-full stream reads q q' chunk more out (take 4096 rest)
                    (full_chunk p rest full) pulled,
                decrypt_loop-sealed fuel reads p' q' (drop 4096 rest) (out ++ take 4096 rest) s'
                    (omega (arith, length-drop 4096 rest))
                    (sealed-shorter fuel reads p rest full r),
                append_assoc out (take 4096 rest) (drop 4096 rest),
                take-append_drop 4096 rest,
              )
              refl
      ]
    where
      sealed-shorter :
          (fuel reads : ℕ) (p : PushState) (rest : List ℕ)
          → 4096 ≤ length rest
          → length (sealed (suc fuel) p rest) < 4113 * suc reads
          → length (sealed fuel (push p (take 4096 rest) tag_message).0 (drop 4096 rest))
            < 4113 * reads
      sealed-shorter fuel reads p rest full r = omega (
        arith,
        full_chunk p rest full,
        subst (λ xs. length xs < 4113 * suc reads) (sealed-full fuel p rest full) r,
        length-append (push p (take 4096 rest) tag_message).1
            (sealed fuel (push p (take 4096 rest) tag_message).0 (drop 4096 rest)),
      )

  -- A file that ends behind `k` full chunks: the loop of `decryptFile` has written those and
  -- refuses what it reads next.
  pub decrypt_loop-cut :
      (k fuel reads : ℕ) (p : PushState) (q : PullState) (rest out : List ℕ)
      → Synced p q
      → 4096 * k ≤ length rest
      → length rest < 4096 * fuel
      → k < reads
      → decrypt_loop stream reads q (take (4113 * k) (sealed fuel p rest)) out
        ≡ rejected (out ++ take (4096 * k) rest)
  decrypt_loop-cut k fuel zero p q rest out s l h r = absurd (omega arith)
  decrypt_loop-cut k zero (suc reads) p q rest out s l h r = absurd (omega arith)
  decrypt_loop-cut zero (suc fuel) (suc reads) p q rest out s l h r =
      rw (append-nil out)
        (decrypt_loop-refused stream reads q [] out (stream.pull_short q [] (omega arith)))
  decrypt_loop-cut (suc k) (suc fuel) (suc reads) p q rest out s l h r =
      let (q', pulled, s') = pull-push p q (take 4096 rest) tag_message s in
      let chunk = (push p (take 4096 rest) tag_message).1 in
      let p' = (push p (take 4096 rest) tag_message).0 in
      let more = sealed fuel p' (drop 4096 rest) in
      rw
        (
          mul-suc 4113 k,
          mul-suc 4096 k,
          sealed-full fuel p rest (omega arith),
          take-append_more 4113 (4113 * k) chunk more (full_chunk p rest (omega arith)),
          take-add 4096 (4096 * k) rest,
          decrypt_loop-full stream reads q q' chunk (take (4113 * k) more) out (take 4096 rest)
              (full_chunk p rest (omega arith)) pulled,
          decrypt_loop-cut k fuel reads p' q' (drop 4096 rest) (out ++ take 4096 rest) s'
              (omega (arith, length-drop 4096 rest)) (omega (arith, length-drop 4096 rest))
              (omega arith),
          append_assoc out (take 4096 rest) (take (4096 * k) (drop 4096 rest)),
        )
        refl

  -- The loop of `decryptFile` always ends with enough fuel.
  pub decrypt_loop-ends :
      (reads : ℕ) (q : PullState) (rest out : List ℕ)
      → length rest < 4113 * reads
      → decrypt_loop stream reads q rest out ≢ out_of_fuel
  unfolding decrypt_loop
  decrypt_loop-ends zero q rest out h = absurd (omega arith)
  decrypt_loop-ends (suc reads) q rest out h = go (pull q (take 4113 rest)) refl (λ q' plain l.
      decrypt_loop-ends reads q' (drop 4113 rest) (out ++ plain)
        (omega (arith, length-drop 4113 rest)))
    where
      go :
          (pulled : Option (PullState × List ℕ × ℕ))
          → pull q (take 4113 rest) ≡ pulled
          → ((q' : PullState) (plain : List ℕ)
              → 4113 ≤ length rest
              → decrypt_loop stream reads q' (drop 4113 rest) (out ++ plain) ≢ out_of_fuel)
          → decrypt_loop stream (suc reads) q rest out ≢ out_of_fuel
      go none e ends = rw (decrypt_loop, e) (ground arith)
      go (some (q', plain, tag)) e ends =
          rw (decrypt_loop, e)
            (branch_ends (tag == tag_final) (ltb (length (take 4113 rest)) 4113) out (out ++ plain)
              (decrypt_loop stream reads q' (drop 4113 rest) (out ++ plain))
              (λ full. ends q' plain (full_read rest full)))
