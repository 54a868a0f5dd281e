-- ===== src/PrivateKey/Counting.antt =====
-- Every member of `PrivateKey` keeps counters that count exactly the objects, except for an
-- assignment between objects of one region.
use cscrypto.Base.{
  ℕ, ◌+◌, ◌%◌, ◌^◌, ◌≡◌, refl, ◌∙◌, inl, inr, Bool-cases, none, some, List, [], ◌∷◌, ◌++◌, arith,
  ◌==◌, length, ok,
}
use cscrypto.MainCryptoFunctions.{private_key_size}
use cscrypto.Sodium.Heap.{Ptr, null, update, SodiumHeap}
use cscrypto.PrivateKey.{
  key_object, World, remove_at, increment, construct, copy_construct, destroy, read_from_bytes,
  fill_result,
}
use cscrypto.PrivateKey.Ops.{
  Op, constructs, copies, assigns, destroys, reads, reads_guard, generates, reads_encrypted,
  encrypts, accesses, CanFill, IsReady, run,
}
use cscrypto.PrivateKey.Encrypted.{read_from_guard, generate_with_pair, refuse_encrypted}
use cscrypto.PrivateKey.Decrypted.{refuse_encrypted-IsRefused, read_from_encrypted-cases}
use cscrypto.PrivateKey.Opened.{locked, access_object-locked, get_encrypted-append}
use cscrypto.Sodium.Aead.{SodiumAead, SodiumPwhash}
use cscrypto.PrivateKey.Refs.{refs-append, refs-remove_at}
use cscrypto.PrivateKey.Safety.{IsSafe, clear-IsSafe, live}
use cscrypto.PrivateKey.Create.{fill_result-IsFilled}
use cscrypto.PrivateKey.Sharing.{IsSafeWorld}
use cscrypto.PrivateKey.Steps.{held_region}
use cscrypto.PrivateKey.Leaks.{IsExact, NoAlias, assign-IsExact_iff}

abbrev SucceedsExactly : SodiumHeap → SodiumAead → SodiumPwhash → Op → World → Type 0
SucceedsExactly m aead ph op w = (w' : World) × (run m aead ph op w ≡ ok w') × IsExact w'

module _ (m : SodiumHeap) (aead : SodiumAead) (ph : SodiumPwhash) (mem_of : Ptr → Ptr) (w : World)
    (s : IsSafe mem_of w.objects w.heap w.counters) (exact : IsExact w) where
  destroy-IsExact :
      (i : ℕ) → IsReady m aead ph (destroys i) w → SucceedsExactly m aead ph (destroys i) w
  unfolding run destroy
  destroy-IsExact i (o, e) =
      let (h, k, ran, safe, cleared) = clear-IsSafe m w i o s e in
      (
        record { objects = remove_at w.objects i; heap = h; counters = k },
        rw (e, ran),
        λ c. omega (arith, cleared.counts c, exact c, refs-remove_at c w.objects i o e),
      )

  copy_construct-IsExact :
      (j : ℕ) → IsReady m aead ph (copies j) w → SucceedsExactly m aead ph (copies j) w
  unfolding run copy_construct increment
  copy_construct-IsExact j (o, e, room) =
      let (n, l, many, pos, small) = live j o s e in
      (
        record {
          objects = w.objects ++ (o ∷ []);
          heap = w.heap;
          counters = update w.counters o.ctr (some ((n + 1) % 2 ^ 32));
        },
        rw (e, l),
        λ c. ground (arith, l, exact c, room n l, refs-append c w.objects o),
      )

  construct-IsExact :
      (c : Ptr) → IsReady m aead ph (constructs c) w → SucceedsExactly m aead ph (constructs c) w
  unfolding run construct
  construct-IsExact c unused = (
    construct m c w,
    refl,
    λ c'. ground (arith, unused, exact c', refs-append c' w.objects (key_object null c)),
  )

  fill_result-IsExact :
      (c choice : Ptr) (bytes : List ℕ)
      → CanFill m aead ph c choice w
      → (w' : World) × (fill_result m c choice bytes w ≡ ok w') × IsExact w'
  fill_result-IsExact c choice bytes (unused, ne) =
      let f = fill_result-IsFilled m c choice bytes w ne in
      (
        record {
          objects = w.objects ++ (key_object f.place c ∷ []);
          heap = f.heap;
          counters = update w.counters c (some 1);
        },
        f.runs,
        λ c'. ground (arith, unused, exact c', refs-append c' w.objects (key_object f.place c)),
      )

  read_from_bytes-IsExact :
      (c choice : Ptr) (bytes : List ℕ)
      → IsReady m aead ph (reads c choice bytes) w
      → SucceedsExactly m aead ph (reads c choice bytes) w
  unfolding run read_from_bytes construct
  read_from_bytes-IsExact c choice bytes ready =
      elim (Bool-cases (length bytes == private_key_size)) [
        | inl full ↦ rw full (fill_result-IsExact c choice bytes ready)
        | inr other ↦ rw other (construct-IsExact c ready.0)
      ]

  generate_with_pair-IsExact :
      (c choice : Ptr) (pair : List ℕ × List ℕ)
      → IsReady m aead ph (generates c choice pair) w
      → SucceedsExactly m aead ph (generates c choice pair) w
  unfolding run generate_with_pair
  generate_with_pair-IsExact c choice (pk, sk) (size, ready) =
      let (w', ran, counts) = fill_result-IsExact c choice sk ready in (w', rw ran refl, counts)

  read_from_guard-IsExact :
      (c choice : Ptr) (bytes : List ℕ)
      → IsReady m aead ph (reads_guard c choice bytes) w
      → SucceedsExactly m aead ph (reads_guard c choice bytes) w
  unfolding run read_from_guard
  read_from_guard-IsExact c choice bytes (size, ready) = fill_result-IsExact c choice bytes ready

  refuse_encrypted-IsExact :
      (c c' choice : Ptr)
      → w.counters c' ≡ none
      → CanFill m aead ph c choice w
      → (w' : World) × (refuse_encrypted m c c' choice w ≡ ok w') × IsExact w'
  refuse_encrypted-IsExact c c' choice unused' (unused, ne) =
      let r = refuse_encrypted-IsRefused m c c' choice w ne in
      (
        r.after,
        r.runs,
        rw (r.objects, r.counters)
            (λ c''.
              ground (
                arith,
                unused,
                unused',
                exact c'',
                refs-append c'' w.objects (key_object null c'),
              )),
      )

  read_from_encrypted-IsExact :
      (c c' choice : Ptr) (bytes passwd : List ℕ)
      → IsReady m aead ph (reads_encrypted c c' choice bytes passwd) w
      → SucceedsExactly m aead ph (reads_encrypted c c' choice bytes passwd) w
  unfolding run
  read_from_encrypted-IsExact c c' choice bytes passwd (key, hashed, fits, unused', ready) =
      elim (read_from_encrypted-cases m aead ph c c' choice bytes passwd key w hashed fits
        ready.1) [
          | inl short ↦
              let (w', ran, counts) = construct-IsExact c ready.0 in (w', short ∙ ran, counts)
          | inr (inl refused) ↦
              let (w', ran, counts) = refuse_encrypted-IsExact c c' choice unused' ready in
              (w', refused ∙ ran, counts)
          | inr (inr (plain, filled)) ↦
              let (w', ran, counts) = fill_result-IsExact c choice plain ready in
              (w', filled ∙ ran, counts)
        ]

  access_object-IsExact :
      (i : ℕ) → IsReady m aead ph (accesses i) w → SucceedsExactly m aead ph (accesses i) w
  unfolding run
  access_object-IsExact i (o, e, ne) =
      let (sk, a, there) = held_region m aead ph mem_of w s i o e ne in
      (
        record w { heap = locked w.heap o.mem sk },
        rw (access_object-locked m aead ph w i o sk a e there) refl,
        exact,
      )

  get_encrypted-IsExact :
      (i : ℕ) (nonce passwd : List ℕ)
      → IsReady m aead ph (encrypts i nonce passwd) w
      → SucceedsExactly m aead ph (encrypts i nonce passwd) w
  unfolding run
  get_encrypted-IsExact i nonce passwd (o, key, e, ne, size, hashed) =
      let (sk, a, there) = held_region m aead ph mem_of w s i o e ne in
      let (cipher, encrypted, more, decrypted) = aead.encrypt_lem sk nonce key in
      (
        record w { heap = locked w.heap o.mem sk },
        rw
            (get_encrypted-append m aead ph w i o sk nonce passwd key cipher a e there size hashed
              encrypted)
            refl,
        exact,
      )

-- In a safe world where every counter counts exactly the objects that refer to it, every operation
-- whose needs are met, other than an assignment between objects of one region, succeeds and keeps
-- every counter exact.
pub run-IsExact :
    (m : SodiumHeap) (aead : SodiumAead) (ph : SodiumPwhash) (op : Op) (w : World)
    → IsSafeWorld w
    → IsReady m aead ph op w
    → NoAlias op w
    → IsExact w
    → SucceedsExactly m aead ph op w
unfolding run
run-IsExact m aead ph (constructs c) w (mem_of, s) ready apart ex =
    construct-IsExact m aead ph mem_of w s ex c ready
run-IsExact m aead ph (copies j) w (mem_of, s) ready apart ex =
    copy_construct-IsExact m aead ph mem_of w s ex j ready
run-IsExact m aead ph (assigns i j) w (mem_of, s) (self, rhs, e, e', room) apart ex =
    let (w', ran, iff) = assign-IsExact_iff m mem_of w s ex i j self rhs e e' room in
    (w', ran, iff.1 (apart self rhs e e'))
run-IsExact m aead ph (destroys i) w (mem_of, s) ready apart ex =
    destroy-IsExact m aead ph mem_of w s ex i ready
run-IsExact m aead ph (reads c choice bytes) w (mem_of, s) ready apart ex =
    read_from_bytes-IsExact m aead ph mem_of w s ex c choice bytes ready
run-IsExact m aead ph (reads_guard c choice bytes) w (mem_of, s) ready apart ex =
    read_from_guard-IsExact m aead ph mem_of w s ex c choice bytes ready
run-IsExact m aead ph (generates c choice pair) w (mem_of, s) ready apart ex =
    generate_with_pair-IsExact m aead ph mem_of w s ex c choice pair ready
run-IsExact m aead ph (reads_encrypted c c' choice bytes passwd) w (mem_of, s) ready apart ex =
    read_from_encrypted-IsExact m aead ph mem_of w s ex c c' choice bytes passwd ready
run-IsExact m aead ph (encrypts i nonce passwd) w (mem_of, s) ready apart ex =
    get_encrypted-IsExact m aead ph mem_of w s ex i nonce passwd ready
run-IsExact m aead ph (accesses i) w (mem_of, s) ready apart ex =
    access_object-IsExact m aead ph mem_of w s ex i ready
