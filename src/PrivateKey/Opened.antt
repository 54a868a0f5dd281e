-- ===== src/PrivateKey/Opened.antt =====
-- What `getEncrypted` and `access` do with the region of a key that is there.
use cscrypto.Base.{
  ℕ, zero, suc, take_all, ◌+◌, ◌≡◌, refl, sym, ap, ◌∙◌, some, List, [], ◌∷◌, ◌++◌, arith, length,
  replicate, get_elem?, ok, copy_to, copy_to-append, copy_to-end, length-replicate, length-append,
  drop-append_at,
}
use cscrypto.Cipher.{resize}
use cscrypto.Sodium.Memory.{region, Access, no_access, read_only}
use cscrypto.Sodium.Heap.{Ptr, Heap, update, SodiumHeap}
use cscrypto.Sodium.Aead.{SodiumAead, SodiumPwhash}
use cscrypto.PrivateKey.{KeyObject, World}
use cscrypto.PrivateKey.Encrypted.{get_key_from_password, sealed, get_encrypted, access_object}

replicate-add : (k n : ℕ) → ◌≡◌ {A = List ℕ} (replicate (k + n) 0) (replicate k 0 ++ replicate n 0)
replicate-add zero n = ap (λ (x : ℕ). replicate x 0) (omega arith)
replicate-add (suc k) n =
    let shift : suc k + n ≡ suc (k + n) = omega arith in
    ap (λ (x : ℕ). replicate x 0) shift ∙ ap (◌∷◌ 0) (replicate-add k n)

resize-nil : (n : ℕ) → resize [] n ≡ replicate n 0
unfolding resize
resize-nil n =
    rw (take_all {A = ℕ} n [] (omega arith)) (ap (λ (x : ℕ). replicate x 0) (omega arith))

pub sealed-append :
    (aead : SodiumAead) (nonce key pk cipher : List ℕ)
    → length nonce ≡ 8
    → aead.encrypt pk nonce key ≡ some cipher
    → sealed aead nonce key pk ≡ ok (nonce ++ cipher)
unfolding sealed
sealed-append aead nonce key pk cipher l e =
    let n = length cipher in
    let zeros : List ℕ = replicate n 0 in
    let buffer : resize [] (8 + n) ≡ replicate 8 0 ++ zeros =
      resize-nil (8 + n) ∙ replicate-add 8 n in
    let first : copy_to (replicate 8 0 ++ zeros) 0 nonce ≡ ok (nonce ++ zeros) =
      copy_to-append (replicate 8 0 ++ zeros) nonce
        (omega (arith, l, length-append (replicate 8 0) zeros))
      ∙ ap (λ (x : List ℕ). ok (nonce ++ x))
          (drop-append_at (length nonce) (replicate 8 0) zeros (sym l)) in
    let second : copy_to (nonce ++ zeros) 8 cipher ≡ ok (nonce ++ cipher) =
      ap (λ (n : ℕ). copy_to (nonce ++ zeros) n cipher) (sym l)
      ∙ copy_to-end nonce zeros cipher (length-replicate n 0) in
    rw (sealed, e, buffer, first) second

-- The heap after `getEncrypted` of a key at `p`: locked.
abbrev pub locked : Heap → Ptr → List ℕ → Heap
locked h p sk = update (update h p (some (region sk read_only))) p (some (region sk no_access))

module _ (m : SodiumHeap) (aead : SodiumAead) (ph : SodiumPwhash) where
  pub get_encrypted-append :
      (w : World) (i : ℕ) (self : KeyObject) (sk nonce passwd key cipher : List ℕ) (a : Access)
      → get_elem? w.objects i ≡ some self
      → w.heap self.mem ≡ some (region sk a)
      → length nonce ≡ 8
      → get_key_from_password ph passwd ≡ some key
      → aead.encrypt sk nonce key ≡ some cipher
      → get_encrypted m aead ph i nonce passwd w
        ≡ ok (nonce ++ cipher, record w { heap = locked w.heap self.mem sk })
  unfolding get_encrypted
  get_encrypted-append w i self sk nonce passwd key cipher a at there l hashed encrypted =
      let opened = update w.heap self.mem (some (region sk read_only)) in
      let at_mem : opened self.mem ≡ some (region sk read_only) = ground arith in
      rw
        (
          at,
          m.readonly_lem self.mem w.heap (region sk a) there,
          at_mem,
          hashed,
          sealed-append aead nonce key sk cipher l encrypted,
          m.noaccess_lem self.mem opened (region sk read_only) at_mem,
        )
        refl

  pub access_object-locked :
      (w : World) (i : ℕ) (self : KeyObject) (sk : List ℕ) (a : Access)
      → get_elem? w.objects i ≡ some self
      → w.heap self.mem ≡ some (region sk a)
      → access_object m i w ≡ ok (sk, record w { heap = locked w.heap self.mem sk })
  unfolding access_object
  access_object-locked w i self sk a at there =
      let opened = update w.heap self.mem (some (region sk read_only)) in
      let at_mem : opened self.mem ≡ some (region sk read_only) = ground arith in
      rw
        (
          at,
          m.readonly_lem self.mem w.heap (region sk a) there,
          at_mem,
          m.noaccess_lem self.mem opened (region sk read_only) at_mem,
        )
        refl
