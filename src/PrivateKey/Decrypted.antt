-- ===== src/PrivateKey/Decrypted.antt =====
-- What becomes of a decrypted text: a new object with its bytes, or an object without a region.
use cscrypto.Base.{
  ℕ, ◌⊎◌, ◌≤◌, ◌≡◌, ◌≢◌, refl, ap, ◌∙◌, inl, inr, false, Bool-cases, Option-cases, Option, none,
  some, List, [], ◌∷◌, ◌++◌, arith, ltb, ◌==◌, length, length-drop, take, drop, le→not_ltb, ok,
}
use cscrypto.MainCryptoFunctions.{private_key_size}
use cscrypto.Sodium.Memory.{region, no_access, read_write}
use cscrypto.Sodium.Heap.{Ptr, null, Heap, update, SodiumHeap}
use cscrypto.Sodium.Aead.{SodiumAead, SodiumPwhash}
use cscrypto.PrivateKey.{
  KeyObject, key_object, World, construct, fill_result, release, release_block,
}
use cscrypto.PrivateKey.Create.{fill_result-IsFilled}
use cscrypto.PrivateKey.Encrypted.{
  get_key_from_password, accept_decrypted, refuse_encrypted, open_encrypted, decrypt_into,
  read_from_encrypted,
}

-- The object that is returned has no region, or exactly the decrypted bytes, locked.
pub record IsRead (decrypted : Option (List ℕ)) (w after : World) : Type 0 where
  pub object : KeyObject
  pub objects : after.objects ≡ w.objects ++ (object ∷ [])
  pub holds :
      (object.mem ≡ null)
      ⊎ ((plain : List ℕ) × (decrypted ≡ some plain)
          × (length plain ≡ 64)
          × (after.heap object.mem ≡ some (region plain no_access)))
  pub same : (q : Ptr) → q ≢ object.mem → after.heap q ≡ w.heap q

module _ (m : SodiumHeap) where
  -- What is left of a refused key: an object without a region, and the heap as it was.
  pub record IsRefused (c c' : Ptr) (choice : Ptr) (w : World) : Type 0 where
    pub after : World
    pub runs : refuse_encrypted m c c' choice w ≡ ok after
    pub objects : after.objects ≡ w.objects ++ (key_object null c' ∷ [])
    pub counters : after.counters ≡ update (update w.counters c none) c' (some 1)
    pub same : (q : Ptr) → after.heap q ≡ w.heap q

  pub refuse_encrypted-IsRefused :
      (c c' choice : Ptr) (w : World)
      → (m.malloc choice private_key_size w.heap).0 ≢ null
      → IsRefused c c' choice w
  unfolding refuse_encrypted release release_block construct
  refuse_encrypted-IsRefused c c' choice w ne = elim (m.malloc_lem choice private_key_size w.heap) [
    | inl failed ↦ absurd (ne (ap (λ (x : Ptr × Heap). x.0) failed))
    | inr (ne', new, garbage, size, grown) ↦
        let p = (m.malloc choice private_key_size w.heap).0 in
        let h = update w.heap p (some (region garbage read_write)) in
        let at_p : h p ≡ some (region garbage read_write) = ground arith in
        let not_null : (p == null) ≡ false = ground (arith, ne') in
        record {
          after =
              construct m c'
                (record w { heap = update h p none; counters = update w.counters c none });
          runs = rw (grown, at_p, not_null, m.free_lem p h ne') refl;
          objects = refl;
          counters = refl;
          same = λ q. ground (arith, new);
        }
  ]

  refused-IsRead :
      {c c' choice : Ptr} {w : World} (decrypted : Option (List ℕ)) (r : IsRefused c c' choice w)
      → IsRead decrypted w r.after
  refused-IsRead {c' = c'} decrypted r = record {
    object = key_object null c';
    objects = r.objects;
    holds = inl refl;
    same = λ q ne. r.same q;
  }

  pub accept_decrypted-fill_result :
      (c choice : Ptr) (plain : List ℕ) (w : World)
      → (m.malloc choice private_key_size w.heap).0 ≢ null
      → accept_decrypted m c choice plain w ≡ fill_result m c choice plain w
  unfolding accept_decrypted
  accept_decrypted-fill_result c choice plain w ne =
      let not_null : ((m.malloc choice private_key_size w.heap).0 == null) ≡ false =
        ground (arith, ne) in
      rw not_null refl

  module _ (aead : SodiumAead) (ph : SodiumPwhash) where
    pub decrypt_into-IsRead :
        (c c' choice : Ptr) (cipher nonce key : List ℕ) (w : World)
        → (m.malloc choice private_key_size w.heap).0 ≢ null
        → length cipher ≤ 80
        → (after : World) × (decrypt_into m aead ph c c' choice cipher nonce key w ≡ ok after)
          × IsRead (aead.decrypt cipher nonce key) w after
    unfolding decrypt_into open_encrypted
    decrypt_into-IsRead c c' choice cipher nonce key w ne fits =
        let room : ltb 80 (length cipher) ≡ false = le→not_ltb 80 (length cipher) fits in
        let r = refuse_encrypted-IsRefused c c' choice w ne in
        elim (Option-cases (aead.decrypt cipher nonce key)) [
          | inl failed ↦ (r.after, rw (room, open_encrypted, failed) r.runs, refused-IsRead _ r)
          | inr (plain, opened) ↦ elim (Bool-cases (length plain == private_key_size)) [
            | inl right_size ↦
                let f = fill_result-IsFilled m c choice plain w ne in
                let after : World = record {
                  objects = w.objects ++ (key_object f.place c ∷ []);
                  heap = f.heap;
                  counters = update w.counters c (some 1);
                } in
                (
                  after,
                  rw (room, open_encrypted, opened, right_size)
                      (accept_decrypted-fill_result c choice plain w ne ∙ f.runs),
                  record {
                    object = key_object f.place c;
                    objects = refl;
                    holds = inr (plain, opened, ground (arith, right_size), f.holds);
                    same = f.same;
                  },
                )
            | inr wrong_size ↦
                (r.after, rw (room, open_encrypted, opened, wrong_size) r.runs, refused-IsRead _ r)
          ]
        ]

    -- What `readFromEncrypted` comes to where nothing is written past the region.
    pub read_from_encrypted-cases :
        (c c' choice : Ptr) (bytes passwd key : List ℕ) (w : World)
        → get_key_from_password ph passwd ≡ some key
        → length bytes ≤ 88
        → (m.malloc choice private_key_size w.heap).0 ≢ null
        → let made = read_from_encrypted m aead ph c c' choice bytes passwd w in
          (made ≡ ok (construct m c w))
          ⊎ (made ≡ refuse_encrypted m c c' choice w)
          ⊎ ((plain : List ℕ) × (made ≡ fill_result m c choice plain w))
    unfolding read_from_encrypted decrypt_into open_encrypted
    read_from_encrypted-cases c c' choice bytes passwd key w hashed fits ne =
        let cipher = drop 8 bytes in
        let nonce = take 8 bytes in
        let room : ltb 80 (length cipher) ≡ false =
          le→not_ltb 80 (length cipher) (omega (arith, length-drop 8 bytes)) in
        elim (Bool-cases (ltb (length bytes) 8)) [
          | inl short ↦ inl (rw short refl)
          | inr enough ↦ inr (elim (Option-cases (aead.decrypt cipher nonce key)) [
            | inl failed ↦ inl (rw (enough, hashed, room, open_encrypted, failed) refl)
            | inr (plain, opened) ↦ elim (Bool-cases (length plain == private_key_size)) [
              | inl right_size ↦ inr (
                plain,
                rw (enough, hashed, room, open_encrypted, opened, right_size)
                    (accept_decrypted-fill_result c choice plain w ne),
              )
              | inr wrong_size ↦
                  inl (rw (enough, hashed, room, open_encrypted, opened, wrong_size) refl)
            ]
          ])
        ]
