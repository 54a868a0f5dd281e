-- ===== src/PrivateKey/Steps.antt =====
-- Every operation of a program on its `PrivateKey` objects succeeds and keeps them safe.
use cscrypto.Base.{ℕ, ◌≡◌, ◌≢◌, refl, ◌∙◌, inl, inr, Option-cases, some, List, arith, get_elem?}
use cscrypto.Sodium.Heap.{Ptr, null, SodiumHeap}
use cscrypto.PrivateKey.{KeyObject, World}
use cscrypto.PrivateKey.Ops.{
  Op, constructs, copies, assigns, destroys, reads, reads_guard, generates, reads_encrypted,
  encrypts, accesses, IsReady, run,
}
use cscrypto.PrivateKey.Opened.{locked, access_object-locked, get_encrypted-append}
use cscrypto.Sodium.Aead.{SodiumAead, SodiumPwhash}
use cscrypto.Sodium.Memory.{region, Access}
use cscrypto.PrivateKey.Refs.{AllObjects-get_elem?}
use cscrypto.PrivateKey.Safety.{IsSafe, live, locked-IsSafe}
use cscrypto.PrivateKey.Sharing.{
  IsSafeWorld, SucceedsSafely, destroy-IsSafe, copy_construct-IsSafe, assign-IsSafe,
}
use cscrypto.PrivateKey.Making.{
  construct-IsSafe, read_from_bytes-IsSafe, read_from_guard-IsSafe, generate_with_pair-IsSafe,
  read_from_encrypted-IsSafe,
}

module _ (m : SodiumHeap) (aead : SodiumAead) (ph : SodiumPwhash) (mem_of : Ptr → Ptr) (w : World)
    (s : IsSafe mem_of w.objects w.heap w.counters) where
  -- The region of a live object that has one.
  pub held_region :
      (i : ℕ) (o : KeyObject)
      → get_elem? w.objects i ≡ some o
      → o.mem ≢ null
      → (sk : List ℕ) × (a : Access) × (w.heap o.mem ≡ some (region sk a))
  held_region i o e ne =
      let (n, l, many, pos, small) = live i o s e in
      let here = AllObjects-get_elem? (λ x. x.mem ≡ mem_of x.ctr) w.objects i o s.owned e in
      let backed = s.backed o.ctr (rw l refl) (λ q. ne (here ∙ q)) in
      elim (Option-cases (w.heap o.mem)) [
        | inl gone ↦ absurd (ground (arith, gone, here, backed))
        | inr (r, there) ↦ (r.bytes, r.access, there)
      ]

  access_object-IsSafe :
      (i : ℕ) → IsReady m aead ph (accesses i) w → SucceedsSafely m aead ph (accesses i) w
  unfolding run
  access_object-IsSafe i (o, e, ne) =
      let (sk, a, there) = held_region i o e ne in
      (
        record w { heap = locked w.heap o.mem sk },
        rw (access_object-locked m aead ph w i o sk a e there) refl,
        (mem_of, locked-IsSafe o.mem sk s (rw there refl)),
      )

  get_encrypted-IsSafe :
      (i : ℕ) (nonce passwd : List ℕ)
      → IsReady m aead ph (encrypts i nonce passwd) w
      → SucceedsSafely m aead ph (encrypts i nonce passwd) w
  unfolding run
  get_encrypted-IsSafe i nonce passwd (o, key, e, ne, size, hashed) =
      let (sk, a, there) = held_region i o e ne in
      let (cipher, encrypted, more, decrypted) = aead.encrypt_lem sk nonce key in
      (
        record w { heap = locked w.heap o.mem sk },
        rw
            (get_encrypted-append m aead ph w i o sk nonce passwd key cipher a e there size hashed
              encrypted)
            refl,
        (mem_of, locked-IsSafe o.mem sk s (rw there refl)),
      )

-- In a world where the objects are safe, every member of the class succeeds if its needs are met
-- (`IsReady`), with no access to a freed counter or region and no other fault, and the objects are
-- safe after it: each points to the region of its counter, which counts at least the objects that
-- refer to it and keeps its region allocated, and no two live counters share a region. The members
-- are the constructors, the assignments, the destructor, `access`, `generateWithPair`, both
-- `readFromBytes`, `readFromEncrypted` and `getEncrypted`; the needs are that the named objects are
-- live, with a region where the key is read, that a new counter is at an unused address, the
-- allocator does not fail, a counter does not overflow, the password can be hashed, keys and nonces
-- have their size, and an encrypted text has at most 88 bytes.
pub run-IsSafe :
    (m : SodiumHeap) (aead : SodiumAead) (ph : SodiumPwhash) (op : Op) (w : World)
    → IsSafeWorld w
    → IsReady m aead ph op w
    → SucceedsSafely m aead ph op w
run-IsSafe m aead ph (constructs c) w (mem_of, s) ready =
    construct-IsSafe m aead ph mem_of w s c ready
run-IsSafe m aead ph (copies j) w (mem_of, s) ready =
    copy_construct-IsSafe m aead ph mem_of w s j ready
run-IsSafe m aead ph (assigns i j) w (mem_of, s) ready =
    assign-IsSafe m aead ph mem_of w s i j ready
run-IsSafe m aead ph (destroys i) w (mem_of, s) ready = destroy-IsSafe m aead ph mem_of w s i ready
run-IsSafe m aead ph (reads c choice bytes) w (mem_of, s) ready =
    read_from_bytes-IsSafe m aead ph mem_of w s c choice bytes ready
run-IsSafe m aead ph (reads_guard c choice bytes) w (mem_of, s) ready =
    read_from_guard-IsSafe m aead ph mem_of w s c choice bytes ready
run-IsSafe m aead ph (generates c choice pair) w (mem_of, s) ready =
    generate_with_pair-IsSafe m aead ph mem_of w s c choice pair ready
run-IsSafe m aead ph (reads_encrypted c c' choice bytes passwd) w (mem_of, s) ready =
    read_from_encrypted-IsSafe m aead ph mem_of w s c c' choice bytes passwd ready
run-IsSafe m aead ph (encrypts i nonce passwd) w (mem_of, s) ready =
    get_encrypted-IsSafe m aead ph mem_of w s i nonce passwd ready
run-IsSafe m aead ph (accesses i) w (mem_of, s) ready =
    access_object-IsSafe m aead ph mem_of w s i ready
