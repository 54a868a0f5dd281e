-- ===== src/PrivateKey/Making.antt =====
-- Every way to make a new `PrivateKey` object succeeds and keeps the objects safe.
use cscrypto.Base.{
  ℕ, ◌≡◌, refl, ◌∙◌, inl, inr, Bool-cases, none, some, List, [], ◌∷◌, ◌++◌, arith, ◌==◌, length, ok,
}
use cscrypto.MainCryptoFunctions.{private_key_size}
use cscrypto.Sodium.Heap.{Ptr, null, update, SodiumHeap}
use cscrypto.PrivateKey.{key_object, World, construct, fill_result, read_from_bytes}
use cscrypto.PrivateKey.Encrypted.{read_from_guard, generate_with_pair, refuse_encrypted}
use cscrypto.PrivateKey.Ops.{
  constructs, reads, reads_guard, generates, reads_encrypted, IsReady, run,
}
use cscrypto.PrivateKey.Decrypted.{refuse_encrypted-IsRefused, read_from_encrypted-cases}
use cscrypto.Sodium.Aead.{SodiumAead, SodiumPwhash}
use cscrypto.PrivateKey.Create.{add-IsSafe, fill_result-IsFilled}
use cscrypto.PrivateKey.Safety.{IsSafe, forget-IsSafe}
use cscrypto.PrivateKey.Sharing.{IsSafeWorld, SucceedsSafely}

module _ (m : SodiumHeap) (aead : SodiumAead) (ph : SodiumPwhash) (mem_of : Ptr → Ptr) (w : World)
    (s : IsSafe mem_of w.objects w.heap w.counters) where
  pub construct-IsSafe :
      (c : Ptr) → IsReady m aead ph (constructs c) w → SucceedsSafely m aead ph (constructs c) w
  unfolding run construct
  construct-IsSafe c unused = (
    construct m c w,
    refl,
    (
      update mem_of c null,
      add-IsSafe mem_of w.objects w.heap w.heap w.counters c null s unused (λ q. absurd (q refl))
          (λ q. absurd (q refl)) (λ q r. refl),
    ),
  )

  pub fill_result-IsSafe :
      (c choice : Ptr) (bytes : List ℕ)
      → IsReady m aead ph (reads c choice bytes) w
      → (w' : World) × (fill_result m c choice bytes w ≡ ok w') × IsSafeWorld w'
  fill_result-IsSafe c choice bytes (unused, ne) =
      let f = fill_result-IsFilled m c choice bytes w ne in
      (
        record {
          objects = w.objects ++ (key_object f.place c ∷ []);
          heap = f.heap;
          counters = update w.counters c (some 1);
        },
        f.runs,
        (
          update mem_of c f.place,
          add-IsSafe mem_of w.objects w.heap f.heap w.counters c f.place s unused (λ q. f.new)
              (λ q. rw f.holds) f.same,
        ),
      )

  pub read_from_bytes-IsSafe :
      (c choice : Ptr) (bytes : List ℕ)
      → IsReady m aead ph (reads c choice bytes) w
      → SucceedsSafely m aead ph (reads c choice bytes) w
  unfolding run read_from_bytes construct
  read_from_bytes-IsSafe c choice bytes ready =
      elim (Bool-cases (length bytes == private_key_size)) [
        | inl full ↦ rw full (fill_result-IsSafe c choice bytes ready)
        | inr other ↦ rw other (construct-IsSafe c ready.0)
      ]

  pub read_from_guard-IsSafe :
      (c choice : Ptr) (bytes : List ℕ)
      → IsReady m aead ph (reads_guard c choice bytes) w
      → SucceedsSafely m aead ph (reads_guard c choice bytes) w
  unfolding run read_from_guard
  read_from_guard-IsSafe c choice bytes (size, ready) = fill_result-IsSafe c choice bytes ready

  pub generate_with_pair-IsSafe :
      (c choice : Ptr) (pair : List ℕ × List ℕ)
      → IsReady m aead ph (generates c choice pair) w
      → SucceedsSafely m aead ph (generates c choice pair) w
  unfolding run generate_with_pair
  generate_with_pair-IsSafe c choice (pk, sk) (size, ready) =
      let (w', ran, safe) = fill_result-IsSafe c choice sk ready in (w', rw ran refl, safe)

  pub refuse_encrypted-IsSafe :
      (c c' choice : Ptr)
      → w.counters c' ≡ none
      → IsReady m aead ph (reads c choice []) w
      → (w' : World) × (refuse_encrypted m c c' choice w ≡ ok w') × IsSafeWorld w'
  refuse_encrypted-IsSafe c c' choice unused' (unused, ne) =
      let r = refuse_encrypted-IsRefused m c c' choice w ne in
      (
        r.after,
        r.runs,
        (
          update mem_of c' null,
          rw (r.objects, r.counters)
              (add-IsSafe mem_of w.objects w.heap r.after.heap (update w.counters c none) c' null
                (forget-IsSafe c s unused) (ground (arith, unused')) (λ q. absurd (q refl))
                (λ q. absurd (q refl)) (λ q ne. r.same q)),
        ),
      )

  pub read_from_encrypted-IsSafe :
      (c c' choice : Ptr) (bytes passwd : List ℕ)
      → IsReady m aead ph (reads_encrypted c c' choice bytes passwd) w
      → SucceedsSafely m aead ph (reads_encrypted c c' choice bytes passwd) w
  unfolding run
  read_from_encrypted-IsSafe c c' choice bytes passwd (key, hashed, fits, unused', ready) =
      elim (read_from_encrypted-cases m aead ph c c' choice bytes passwd key w hashed fits
        ready.1) [
          | inl short ↦ let (w', ran, safe) = construct-IsSafe c ready.0 in (w', short ∙ ran, safe)
          | inr (inl refused) ↦
              let (w', ran, safe) = refuse_encrypted-IsSafe c c' choice unused' ready in
              (w', refused ∙ ran, safe)
          | inr (inr (plain, filled)) ↦
              let (w', ran, safe) = fill_result-IsSafe c choice plain ready in
              (w', filled ∙ ran, safe)
        ]
