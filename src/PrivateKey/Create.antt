-- ===== src/PrivateKey/Create.antt =====
-- New `PrivateKey` objects: by the default constructor and by `readFromBytes`.
use cscrypto.Base.{
  ℕ, ◌≡◌, ◌≢◌, ap, inl, inr, true, Option, none, some, List, [], ◌∷◌, ◌++◌, arith, ok, is_some,
}
use cscrypto.MainCryptoFunctions.{private_key_size}
use cscrypto.Sodium.Memory.{Region, region, no_access, read_write}
use cscrypto.Sodium.Heap.{Ptr, null, Heap, update, SodiumHeap}
use cscrypto.PrivateKey.{KeyObject, key_object, World, fill_result, store_bytes}
use cscrypto.PrivateKey.Refs.{refs, refs-append, AllObjects, AllObjects-append}
use cscrypto.PrivateKey.Safety.{IsSafe, Counters}

update_self : (h : Heap) (p : Ptr) (r : Option Region) → update h p r p ≡ r
update_self h p r = ground arith

-- Objects of other counters do not see the entry of a new one.
owned-update :
    (mem_of : Ptr → Ptr) (c p : Ptr) (os : List KeyObject)
    → refs c os ≡ 0
    → AllObjects (λ o. o.mem ≡ mem_of o.ctr) os
    → AllObjects (λ o. o.mem ≡ update mem_of c p o.ctr) os
unfolding refs
owned-update mem_of c p [] none_yet all = tt
owned-update mem_of c p (o ∷ os) none_yet all =
    (ground (arith, all.0), owned-update mem_of c p os (omega arith) all.1)

-- A new object at an unused counter, with NULL or a new region.
pub add-IsSafe :
    (mem_of : Ptr → Ptr) (os : List KeyObject) (h h' : Heap) (k : Counters) (c p : Ptr)
    → IsSafe mem_of os h k
    → k c ≡ none
    → (p ≢ null → h p ≡ none)
    → (p ≢ null → is_some (h' p) ≡ true)
    → ((q : Ptr) → q ≢ p → h' q ≡ h q)
    → IsSafe (update mem_of c p) (os ++ (key_object p c ∷ [])) h' (update k c (some 1))
add-IsSafe mem_of os h h' k c p s unused free taken same = record {
  owned =
      AllObjects-append _ os (key_object p c)
        (owned-update mem_of c p os (ground (arith, s.counted c)) s.owned) (ground arith);
  counted = λ c'. ground (arith, s.counted c', refs-append c' os (key_object p c));
  positive = λ c' n q. ground (arith, s.positive c' n);
  backed = λ c' q r. ground (arith, s.backed c', same (mem_of c'));
  apart = λ c' c'' q r t u. ground (arith, s.apart c' c'', s.backed c', s.backed c'');
}

-- Where the allocator does not fail, `result` gets a locked region with exactly the bytes, and no
-- other region changes.
pub record IsFilled (m : SodiumHeap) (c choice : Ptr) (bytes : List ℕ) (w : World) : Type 0 where
  pub place : Ptr
  pub new : w.heap place ≡ none
  pub ne_null : place ≢ null
  pub heap : Heap
  pub runs :
      fill_result m c choice bytes w
      ≡ ok (record {
        objects = w.objects ++ (key_object place c ∷ []);
        heap = heap;
        counters = update w.counters c (some 1);
      })
  pub holds : heap place ≡ some (region bytes no_access)
  pub same : (q : Ptr) → q ≢ place → heap q ≡ w.heap q

pub fill_result-IsFilled :
    (m : SodiumHeap) (c choice : Ptr) (bytes : List ℕ) (w : World)
    → (m.malloc choice private_key_size w.heap).0 ≢ null
    → IsFilled m c choice bytes w
unfolding fill_result store_bytes
fill_result-IsFilled m c choice bytes w ne = elim (m.malloc_lem choice private_key_size w.heap) [
  | inl failed ↦ absurd (ne (ap (λ (x : Ptr × Heap). x.0) failed))
  | inr (ne', new, garbage, size, grown) ↦
      let p = (m.malloc choice private_key_size w.heap).0 in
      let h1 = update w.heap p (some (region garbage read_write)) in
      let h2 = update h1 p (some (region bytes read_write)) in
      let at_p : h1 p ≡ some (region garbage read_write) =
        update_self w.heap p (some (region garbage read_write)) in
      record {
        place = p;
        new = new;
        ne_null = ne';
        heap = update h2 p (some (region bytes no_access));
        runs = rw (
          grown,
          at_p,
          m.noaccess_lem p h2 (region bytes read_write)
              (update_self h1 p (some (region bytes read_write))),
        );
        holds = ground arith;
        same = λ q r. ground arith;
      }
]
