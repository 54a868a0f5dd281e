-- ===== src/PrivateKey.antt =====
-- src/privatekey.cpp: `PrivateKey` objects share a guarded region and count their references. The
-- special members are functions on a world that holds all live objects, the guarded memory and the
-- counters (`new uint32_t`); an access to a counter or a region that is gone is a fault.
pub mod Refs
pub mod Clear
pub mod Safety
pub mod Create
pub mod Encrypted
pub mod Ops
pub mod Decrypted
pub mod Opened
pub mod Password
pub mod Sharing
pub mod Making
pub mod Steps
pub mod Leaks
pub mod Counting
pub mod Reach
use cscrypto.Base.{
  ℕ, zero, suc, ◌+◌, ◌-◌, ◌%◌, ◌^◌, Option, none, some, List, [], ◌∷◌, ◌++◌, set, length, ◌==◌,
  if◌then◌else◌, Outcome, ok, fault, ◌>>=◌, read, from_option,
}
use cscrypto.MainCryptoFunctions.{private_key_size}
use cscrypto.Sodium.Memory.{Region, region, Access, read_write}
use cscrypto.Sodium.Heap.{Ptr, null, Heap, update, SodiumHeap}

pub record KeyObject : Type 0 where
  pub mem : Ptr
  pub ctr : Ptr

abbrev pub key_object : Ptr → Ptr → KeyObject
key_object p c = record { mem = p; ctr = c }

pub record World : Type 0 where
  pub objects : List KeyObject
  pub heap : Heap
  pub counters : Ptr → Option ℕ

abbrev pub remove_at {ℓ} : {A : Type ℓ} → List A → ℕ → List A
remove_at [] i = []
remove_at (x ∷ xs) zero = xs
remove_at (x ∷ xs) (suc i) = x ∷ remove_at xs i

-- `sodium_free(p)`: nothing at NULL, a fault at a region that is not allocated.
unfoldable pub release_block : SodiumHeap → Ptr → Heap → Option Region → Outcome Heap
release_block m p h none = if p == null then ok h else fault
release_block m p h (some r) = if p == null then ok h else ok (m.free p h)

unfoldable pub release : SodiumHeap → Ptr → Heap → Outcome Heap
release m p h = release_block m p h (h p)

-- `memcpy(p, bytes.data(), bytes.size())` into a region of that size: a fault at NULL and at a
-- region that is not writable.
unfoldable pub store_bytes : List ℕ → Ptr → Heap → Option Region → Outcome Heap
store_bytes bytes p h none = fault
store_bytes bytes p h (some r) = elim r.access [
  | read_write ↦ ok (update h p (some (region bytes read_write)))
  | _ ↦ fault
]

module _ (m : SodiumHeap) where
  -- `PrivateKey::clear`, for an object with these pointers.
  unfoldable pub clear : World → KeyObject → Outcome World
  clear w o = do
    n ← from_option (w.counters o.ctr)
    let left = (n + (2 ^ 32 - 1)) % 2 ^ 32
    let w' = record w { counters = update w.counters o.ctr (some left) }
    if left == 0
        then (do
          h ← release m o.mem w'.heap
          ok (record w' { heap = h; counters = update w'.counters o.ctr none }))
        else ok w'

  -- `++(*ctr_)`.
  unfoldable pub increment : Ptr → World → Outcome World
  increment c w = do
    n ← from_option (w.counters c)
    ok (record w { counters = update w.counters c (some ((n + 1) % 2 ^ 32)) })

  -- `PrivateKey()`: `c` is the address of the new counter.
  unfoldable pub construct : Ptr → World → World
  construct c w = record w {
    objects = w.objects ++ (key_object null c ∷ []);
    counters = update w.counters c (some 1);
  }

  -- `PrivateKey(const PrivateKey&)`, of object `j`; `PrivateKey(PrivateKey&&)` does the same.
  unfoldable pub copy_construct : ℕ → World → Outcome World
  copy_construct j w = do
    rhs ← read w.objects j
    increment rhs.ctr (record w { objects = w.objects ++ (rhs ∷ []) })

  -- `*objects[i] = *objects[j]`, by copy or by move.
  unfoldable pub assign : ℕ → ℕ → World → Outcome World
  assign i j w = do
    self ← read w.objects i
    rhs ← read w.objects j
    w' ← if rhs.mem == self.mem then ok w else clear w self
    increment rhs.ctr (record w' { objects = set w'.objects i rhs })

  -- `~PrivateKey()` of object `i`.
  unfoldable pub destroy : ℕ → World → Outcome World
  destroy i w = do
    self ← read w.objects i
    w' ← clear w self
    ok (record w' { objects = remove_at w'.objects i })

  -- What `readFromBytes` does behind its check of the size: a new object `result`, whose region
  -- is allocated, filled with the bytes and locked.
  unfoldable pub fill_result : Ptr → Ptr → List ℕ → World → Outcome World
  fill_result c choice bytes w =
      let (p, h) = m.malloc choice private_key_size w.heap in
      do
        h' ← store_bytes bytes p h (h p)
        ok (record w {
          objects = w.objects ++ (key_object p c ∷ []);
          heap = m.protect_noaccess p h';
          counters = update w.counters c (some 1);
        })

  -- `PrivateKey::readFromBytes`: the object that is returned is the last one. `c` is the address
  -- of its counter and `choice` what the allocator chooses.
  unfoldable pub read_from_bytes : Ptr → Ptr → List ℕ → World → Outcome World
  read_from_bytes c choice bytes w =
      if length bytes == private_key_size then fill_result c choice bytes w else ok (construct c w)
