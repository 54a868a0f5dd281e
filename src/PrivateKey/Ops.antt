-- ===== src/PrivateKey/Ops.antt =====
-- Programs on `PrivateKey` objects: the members of the class (include/cscrypto/privatekey.hpp) as
-- operations, and what each of them needs.
use cscrypto.Base.{
  ℕ, ◌+◌, ◌^◌, ◌≤◌, ◌<◌, ◌≡◌, ◌≢◌, none, some, List, length, get_elem?, Outcome, ok, ◌>>=◌,
}
use cscrypto.MainCryptoFunctions.{private_key_size}
use cscrypto.Sodium.Aead.{SodiumAead, SodiumPwhash, aead_npubbytes}
use cscrypto.Sodium.Heap.{Ptr, null, SodiumHeap}
use cscrypto.PrivateKey.{
  KeyObject, World, construct, copy_construct, assign, destroy, read_from_bytes,
}
use cscrypto.PrivateKey.Encrypted.{
  get_key_from_password, generate_with_pair, read_from_guard, read_from_encrypted, get_encrypted,
  access_object,
}

-- The operations of a program on its objects.
pub data Op : Type 0 where
  constructs : Ptr → Op
  copies : ℕ → Op
  assigns : ℕ → ℕ → Op
  destroys : ℕ → Op
  reads reads_guard : Ptr → Ptr → List ℕ → Op
  generates : Ptr → Ptr → List ℕ × List ℕ → Op
  reads_encrypted : Ptr → Ptr → Ptr → (bytes passwd : List ℕ) → Op
  encrypts : ℕ → (nonce passwd : List ℕ) → Op
  accesses : ℕ → Op

-- There is room for one more reference to the counter of this object.
abbrev pub HasRoom : World → KeyObject → Type 0
HasRoom w o = (n : ℕ) → w.counters o.ctr ≡ some n → n + 1 < 2 ^ 32

module _ (m : SodiumHeap) (aead : SodiumAead) (ph : SodiumPwhash) where
  unfoldable pub run : Op → World → Outcome World
  run (constructs c) w = ok (construct m c w)
  run (copies j) w = copy_construct m j w
  run (assigns i j) w = assign m i j w
  run (destroys i) w = destroy m i w
  run (reads c choice bytes) w = read_from_bytes m c choice bytes w
  run (reads_guard c choice bytes) w = read_from_guard m c choice bytes w
  run (generates c choice pair) w = do (pk, w') ← generate_with_pair m c choice pair w; ok w'
  run (reads_encrypted c c' choice bytes passwd) w =
      read_from_encrypted m aead ph c c' choice bytes passwd w
  run (encrypts i nonce passwd) w = do
    (result, w') ← get_encrypted m aead ph i nonce passwd w
    ok w'
  run (accesses i) w = do (bytes, w') ← access_object m i w; ok w'

  -- A new object with a region: its counter is at an unused address and the allocator does not fail.
  abbrev pub CanFill : Ptr → Ptr → World → Type 0
  CanFill c choice w = (w.counters c ≡ none) × ((m.malloc choice private_key_size w.heap).0 ≢ null)

  -- What an operation needs: the objects that it names are live, those whose key is read have a
  -- region, a new counter is at an unused address, the allocator does not fail, a counter does not
  -- overflow, keys and nonces have their size, passwords can be hashed, and an encrypted text is not
  -- longer than an encrypted key.
  abbrev pub IsReady : Op → World → Type 0
  IsReady (constructs c) w = w.counters c ≡ none
  IsReady (copies j) w = (o : KeyObject) × (get_elem? w.objects j ≡ some o) × HasRoom w o
  IsReady (assigns i j) w =
      (self rhs : KeyObject) × (get_elem? w.objects i ≡ some self)
      × (get_elem? w.objects j ≡ some rhs)
      × HasRoom w rhs
  IsReady (destroys i) w = (o : KeyObject) × (get_elem? w.objects i ≡ some o)
  IsReady (reads c choice bytes) w = CanFill c choice w
  IsReady (reads_guard c choice bytes) w = (length bytes ≡ private_key_size) × CanFill c choice w
  IsReady (generates c choice pair) w = (length pair.1 ≡ private_key_size) × CanFill c choice w
  IsReady (reads_encrypted c c' choice bytes passwd) w =
      (key : List ℕ) × (get_key_from_password ph passwd ≡ some key)
      × (length bytes ≤ 88)
      × (w.counters c' ≡ none)
      × CanFill c choice w
  IsReady (encrypts i nonce passwd) w =
      (o : KeyObject) × (key : List ℕ) × (get_elem? w.objects i ≡ some o)
      × (o.mem ≢ null)
      × (length nonce ≡ aead_npubbytes)
      × (get_key_from_password ph passwd ≡ some key)
  IsReady (accesses i) w = (o : KeyObject) × (get_elem? w.objects i ≡ some o) × (o.mem ≢ null)
