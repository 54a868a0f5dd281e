-- ===== src/PrivateKey/Clear.antt =====
-- What `PrivateKey::clear` does at the last reference and at an earlier one.
use cscrypto.Base.{
  ℕ, suc, ◌+◌, ◌-◌, ◌%◌, ◌^◌, ◌<◌, ◌≡◌, ◌≢◌, inl, inr, true, false, none, some, arith, ◌==◌, ok,
  Option-cases, if◌then◌else◌, is_some,
}
use cscrypto.Sodium.Heap.{Ptr, null, Heap, update, SodiumHeap}
use cscrypto.PrivateKey.{KeyObject, World, release, release_block, clear}

module _ (m : SodiumHeap) where
  pub release-ok :
      (p : Ptr) (h : Heap)
      → (p ≢ null → is_some (h p) ≡ true)
      → release m p h ≡ ok (if p == null then h else update h p none)
  unfolding release release_block
  release-ok p h backed = elim (Option-cases (h p)) [
    | inl gone ↦ rw gone (ground arith)
    | inr (r, there) ↦ rw there (ground (arith, m.free_lem p h))
  ]

  pub clear-last :
      (w : World) (o : KeyObject)
      → w.counters o.ctr ≡ some 1
      → (o.mem ≢ null → is_some (w.heap o.mem) ≡ true)
      → clear m w o
        ≡ ok (record {
          objects = w.objects;
          heap = if o.mem == null then w.heap else update w.heap o.mem none;
          counters = update (update w.counters o.ctr (some 0)) o.ctr none;
        })
  unfolding clear
  clear-last w o l backed = rw (l, release-ok o.mem w.heap backed)

  pub clear-more :
      (w : World) (o : KeyObject) (n : ℕ)
      → w.counters o.ctr ≡ some (suc (suc n))
      → suc (suc n) < 2 ^ 32
      → clear m w o
        ≡ ok (record {
          objects = w.objects;
          heap = w.heap;
          counters = update w.counters o.ctr (some (suc n));
        })
  unfolding clear
  clear-more w o n l small =
      let wraps : (suc (suc n) + (2 ^ 32 - 1)) % 2 ^ 32 ≡ suc n = omega arith in
      let other : (suc n == 0) ≡ false = ground arith in rw (l, wraps, other)
