-- ===== src/Tests/PrivateKeys.antt =====
-- `PrivateKey` objects on a heap whose allocator takes the place that it is offered.
use cscrypto.Base.{
  ℕ, ◌+◌, ◌<◌, ◌≤◌, ◌≡◌, ◌≢◌, ◌⊎◌, ◌↔◌, refl, inl, inr, true, Option, none, some, List, [], ◌∷◌,
  arith, ◌==◌, if◌then◌else◌, length, replicate, length-replicate, ok, ok_or, is_some, Bool-cases,
  ◌||◌,
}
use cscrypto.Sodium.Memory.{Region, region, no_access, read_only, read_write}
use cscrypto.Sodium.Heap.{Ptr, null, Heap, update, SodiumHeap}
use cscrypto.PrivateKey.{
  key_object, World, clear, release, release_block, store_bytes, increment, copy_construct, assign,
  destroy, fill_result, read_from_bytes,
}
use cscrypto.PrivateKey.Ops.{copies, destroys, reads, encrypts, IsReady, run}
use cscrypto.PrivateKey.Encrypted.{get_key_from_password}
use cscrypto.PrivateKey.Sharing.{IsSafeWorld}
use cscrypto.PrivateKey.Steps.{run-IsSafe}
use cscrypto.Tests.Aeads.{simple_aead, simple_pwhash}
use cscrypto.PrivateKey.Leaks.{IsExact, assign-IsExact_iff}
use cscrypto.PrivateKey.Reach.{
  empty_world, ReachApart, Reach-IsSafe, Reach-alive, ReachApart-Reach, ReachApart-IsExact,
  ReachApart-released,
}

unfoldable pub offer : Ptr → ℕ → Heap → Ptr × Heap
offer p n h =
    if p == null || is_some (h p)
    then (null, h)
    else (p, update h p (some (region (replicate n 219) read_write)))

pub offer_lem :
    (p : Ptr) (n : ℕ) (h : Heap)
    → ((offer p n h ≡ (null, h))
        ⊎ (((offer p n h).0 ≢ null)
            × (h (offer p n h).0 ≡ none)
            × (bytes : List ℕ) × (length bytes ≡ n)
            × ((offer p n h).1 ≡ update h (offer p n h).0 (some (region bytes read_write)))))
unfolding offer
offer_lem p n h = elim (Bool-cases (p == null || is_some (h p))) [
  | inl refused ↦ inl (rw refused)
  | inr taken ↦ inr (
      rw taken (
        ground (arith, taken),
        ground (arith, taken),
        replicate n 219,
        length-replicate n 219,
        refl,
      ))
]

unfoldable pub set_access : Heap → Ptr → Option Region → (Region → Region) → Heap
set_access h p none f = h
set_access h p (some r) f = update h p (some (f r))

pub set_access_lem :
    (h : Heap) (p : Ptr) (r : Region) (f : Region → Region)
    → h p ≡ some r
    → set_access h p (h p) f ≡ update h p (some (f r))
unfolding set_access
set_access_lem h p r f e = rw e

abbrev pub simple_heap : SodiumHeap
simple_heap = record {
  malloc = offer;
  free = λ p h. update h p none;
  protect_noaccess = λ p h. set_access h p (h p) (λ r. region r.bytes no_access);
  protect_readonly = λ p h. set_access h p (h p) (λ r. region r.bytes read_only);
  malloc_lem = offer_lem;
  free_lem = λ p h q. refl;
  noaccess_lem = λ p h r e. set_access_lem h p r (λ r. region r.bytes no_access) e;
  readonly_lem = λ p h r e. set_access_lem h p r (λ r. region r.bytes read_only) e;
}

abbrev secret_bytes : List ℕ
secret_bytes = replicate 64 5

-- Two objects read from bytes, at the counters 1 and 2 and the regions 10 and 20, and then a copy of
-- the first.
abbrev one_key : World
one_key =
    ok_or empty_world
      (run simple_heap simple_aead simple_pwhash (reads 1 10 secret_bytes) empty_world)

abbrev two_keys : World
two_keys =
    ok_or empty_world (run simple_heap simple_aead simple_pwhash (reads 2 20 secret_bytes) one_key)

abbrev shared_key : World
shared_key = ok_or empty_world (run simple_heap simple_aead simple_pwhash (copies 0) two_keys)

-- The one object of the first world, destroyed.
abbrev no_keys : World
no_keys = ok_or empty_world (run simple_heap simple_aead simple_pwhash (destroys 0) one_key)

one_key-ReachApart : ReachApart simple_heap simple_aead simple_pwhash one_key
unfolding run read_from_bytes fill_result store_bytes offer set_access ok_or copy_construct
    increment
one_key-ReachApart =
    ReachApart.next (reads 1 10 secret_bytes) ReachApart.start (refl, omega arith) tt refl

two_keys-ReachApart : ReachApart simple_heap simple_aead simple_pwhash two_keys
unfolding run read_from_bytes fill_result store_bytes offer set_access ok_or copy_construct
    increment
two_keys-ReachApart =
    ReachApart.next (reads 2 20 secret_bytes) one_key-ReachApart (refl, omega arith) tt refl

shared_key-ReachApart : ReachApart simple_heap simple_aead simple_pwhash shared_key
unfolding run read_from_bytes fill_result store_bytes offer set_access ok_or copy_construct
    increment
shared_key-ReachApart =
    ReachApart.next (copies 0) two_keys-ReachApart (key_object 10 1, refl, λ n e. ground arith) tt
      refl

no_keys-ReachApart : ReachApart simple_heap simple_aead simple_pwhash no_keys
unfolding run read_from_bytes fill_result store_bytes offer set_access ok_or copy_construct
    increment destroy clear release release_block
no_keys-ReachApart = ReachApart.next (destroys 0) one_key-ReachApart (key_object 10 1, refl) tt refl

ReachApart-released_example : no_keys.counters 1 ≡ none
unfolding run read_from_bytes fill_result store_bytes offer set_access ok_or copy_construct
    increment destroy clear release release_block
ReachApart-released_example =
    ReachApart-released simple_heap simple_aead simple_pwhash 1 no_keys-ReachApart refl

Reach-alive_example :
    (n : ℕ) × (shared_key.counters 1 ≡ some n)
    × (1 ≤ n)
    × (10 ≢ null → is_some (shared_key.heap 10) ≡ true)
unfolding run read_from_bytes fill_result store_bytes offer set_access ok_or copy_construct
    increment
Reach-alive_example =
    Reach-alive simple_heap simple_aead simple_pwhash 2 (key_object 10 1)
      (ReachApart-Reach simple_heap simple_aead simple_pwhash shared_key-ReachApart) refl

shared_key-IsSafe : IsSafeWorld shared_key
shared_key-IsSafe =
    Reach-IsSafe simple_heap simple_aead simple_pwhash
      (ReachApart-Reach simple_heap simple_aead simple_pwhash shared_key-ReachApart)

-- The key of object 1 is encrypted with a password.
encrypts-IsReady :
    IsReady simple_heap simple_aead simple_pwhash (encrypts 1 (replicate 8 9) (1 ∷ [])) shared_key
unfolding run read_from_bytes fill_result store_bytes offer set_access ok_or copy_construct
    increment get_key_from_password
encrypts-IsReady = (key_object 20 2, replicate 32 7, refl, omega arith, refl, refl)

run-IsSafe_example :
    (w' : World) × (run simple_heap simple_aead simple_pwhash
        (encrypts 1 (replicate 8 9) (1 ∷ []))
        shared_key
      ≡ ok w')
    × IsSafeWorld w'
run-IsSafe_example =
    run-IsSafe simple_heap simple_aead simple_pwhash (encrypts 1 (replicate 8 9) (1 ∷ []))
      shared_key shared_key-IsSafe encrypts-IsReady

shared_room : (n : ℕ) → shared_key.counters 1 ≡ some n → n + 1 < 4294967296
unfolding run read_from_bytes fill_result store_bytes offer set_access ok_or copy_construct
    increment
shared_room n e = ground arith

assign-IsExact_iff_example :
    (w' : World) × (assign simple_heap 0 2 shared_key ≡ ok w') × (IsExact w' ↔ ◌≢◌ {A = ℕ} 10 10)
unfolding run read_from_bytes fill_result store_bytes offer set_access ok_or copy_construct
    increment
assign-IsExact_iff_example =
    assign-IsExact_iff simple_heap shared_key-IsSafe.0 shared_key shared_key-IsSafe.1
      (ReachApart-IsExact simple_heap simple_aead simple_pwhash shared_key-ReachApart) 0 2
      (key_object 10 1) (key_object 10 1) refl refl shared_room

-- After the assignment between the two copies the counter is 3, though two objects refer to it.
leak_test : (ok_or empty_world (assign simple_heap 0 2 shared_key)).counters 1 ≡ some 3
unfolding run read_from_bytes fill_result store_bytes offer set_access ok_or assign copy_construct
    increment
leak_test = refl
