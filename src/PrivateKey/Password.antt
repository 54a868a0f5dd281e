-- ===== src/PrivateKey/Password.antt =====
-- What `readFromEncrypted` makes of every input, and that it reads back what `getEncrypted` wrote.
use cscrypto.Base.{
  ℕ, ◌⊎◌, ◌≤◌, ◌<◌, ◌≡◌, ◌≢◌, refl, ◌∙◌, inl, inr, true, false, lt-cases, length-drop, some, List,
  [], ◌∷◌, ◌++◌, arith, ltb, ◌==◌, length, lt→ltb, le→not_ltb, take, drop, get_elem?, ok, fault,
  length-append, take-append_at, drop-append_at,
}
use cscrypto.MainCryptoFunctions.{private_key_size}
use cscrypto.Sodium.Memory.{region, Access, no_access}
use cscrypto.Sodium.Heap.{Ptr, null, update, SodiumHeap}
use cscrypto.Sodium.Aead.{SodiumAead, SodiumPwhash}
use cscrypto.PrivateKey.{KeyObject, key_object, World, construct}
use cscrypto.PrivateKey.Create.{fill_result-IsFilled}
use cscrypto.PrivateKey.Decrypted.{IsRead, decrypt_into-IsRead, accept_decrypted-fill_result}
use cscrypto.PrivateKey.Encrypted.{
  get_key_from_password, open_encrypted, decrypt_into, read_from_encrypted, get_encrypted,
}
use cscrypto.PrivateKey.Opened.{locked, get_encrypted-append}

module _ (m : SodiumHeap) (aead : SodiumAead) (ph : SodiumPwhash) where
  -- For every input, if the password can be hashed and the region of the new key be allocated: a
  -- text of more than 88 bytes is a fault, since it is decrypted past that region. From any other
  -- `readFromEncrypted` makes one object and no fault; the object has no region, or a
  -- region with exactly the 64 bytes that the text behind the nonce decrypts to, locked; no other
  -- region changes.
  pub read_from_encrypted_lem :
      (c c' choice : Ptr) (bytes passwd key : List ℕ) (w : World)
      → get_key_from_password ph passwd ≡ some key
      → (m.malloc choice private_key_size w.heap).0 ≢ null
      → ((88 < length bytes) × (read_from_encrypted m aead ph c c' choice bytes passwd w ≡ fault))
        ⊎ ((length bytes ≤ 88)
            × (after : World) × (read_from_encrypted m aead ph c c' choice bytes passwd w
                ≡ ok after)
            × IsRead (aead.decrypt (drop 8 bytes) (take 8 bytes) key) w after)
  unfolding read_from_encrypted decrypt_into open_encrypted construct
  read_from_encrypted_lem c c' choice bytes passwd key w hashed ne =
      elim (lt-cases (length bytes) 8) [
        | inl short ↦ inr (
          omega arith,
          construct m c w,
          rw (lt→ltb (length bytes) 8 short) refl,
          record {
            object = key_object null c;
            objects = refl;
            holds = inl refl;
            same = λ q ne. refl;
          },
        )
        | inr enough ↦
            let long_enough : ltb (length bytes) 8 ≡ false = le→not_ltb (length bytes) 8 enough in
            let size = length-drop 8 bytes in
            elim (lt-cases 88 (length bytes)) [
              | inl long ↦
                  let no_room : ltb 80 (length (drop 8 bytes)) ≡ true =
                    lt→ltb 80 _ (omega (arith, size)) in
                  inl (long, rw (long_enough, hashed, open_encrypted, no_room) refl)
              | inr fits ↦
                  let (after, runs, is_read) =
                    decrypt_into-IsRead m aead ph c c' choice (drop 8 bytes) (take 8 bytes) key w ne
                      (omega (arith, size)) in
                  inr (fits, after, rw (long_enough, hashed) runs, is_read)
            ]
      ]

  -- A private key of 64 bytes that is encrypted with a password that can be hashed, and then read
  -- back with it into a region that can be allocated: `getEncrypted` gives 88 bytes, and
  -- `readFromEncrypted` makes of them one object, whose region holds the bytes of the key, locked.
  -- The encrypted key is locked as well.
  pub read_from_encrypted-get_encrypted :
      (w : World) (i : ℕ) (self : KeyObject) (sk nonce passwd key : List ℕ) (a : Access)
      (c c' choice : Ptr)
      → get_elem? w.objects i ≡ some self
      → w.heap self.mem ≡ some (region sk a)
      → length sk ≡ 64
      → length nonce ≡ 8
      → get_key_from_password ph passwd ≡ some key
      → (m.malloc choice private_key_size (locked w.heap self.mem sk)).0 ≢ null
      → (bytes : List ℕ) × (w' after : World) × (p : Ptr) × (get_encrypted m aead ph i nonce passwd
            w
          ≡ ok (bytes, w'))
        × (length bytes ≡ 88)
        × (read_from_encrypted m aead ph c c' choice bytes passwd w' ≡ ok after)
        × (after.objects ≡ w.objects ++ (key_object p c ∷ []))
        × (after.heap p ≡ some (region sk no_access))
        × (after.heap self.mem ≡ some (region sk no_access))
  unfolding read_from_encrypted decrypt_into open_encrypted
  read_from_encrypted-get_encrypted w i self sk nonce passwd key a c c' choice at there l l' hashed
        ne =
      let (cipher, encrypted, size, decrypted) = aead.encrypt_lem sk nonce key in
      let w' : World = record w { heap = locked w.heap self.mem sk } in
      let f = fill_result-IsFilled m c choice sk w' ne in
      let after : World = record {
        objects = w.objects ++ (key_object f.place c ∷ []);
        heap = f.heap;
        counters = update w.counters c (some 1);
      } in
      let held : w'.heap self.mem ≡ some (region sk no_access) = ground arith in
      let apart : self.mem ≢ f.place = λ e. cc (e, held, f.new) in
      let total = length-append nonce cipher in
      let enough : ltb (length (nonce ++ cipher)) 8 ≡ false =
        le→not_ltb _ 8 (omega (arith, total, l')) in
      let room : ltb 80 (length cipher) ≡ false =
        le→not_ltb 80 (length cipher) (omega (arith, size, l)) in
      let right_size : (length sk == 64) ≡ true = ground (arith, l) in
      (
        nonce ++ cipher,
        w',
        after,
        f.place,
        get_encrypted-append m aead ph w i self sk nonce passwd key cipher a at there l' hashed
            encrypted,
        omega (arith, total, size, l, l'),
        rw
            (
              enough,
              hashed,
              take-append_at 8 nonce cipher l',
              drop-append_at 8 nonce cipher l',
              decrypt_into,
              room,
              decrypted,
              right_size,
            )
            (accept_decrypted-fill_result m c choice sk w' ne ∙ f.runs),
        refl,
        f.holds,
        f.same self.mem apart ∙ held,
      )
