-- ===== src/PrivateKey/Safety.antt =====
-- No operation of `PrivateKey` frees a region or a counter that an object still refers to.
use cscrypto.Base.{
  ℕ, zero, suc, ◌+◌, ◌%◌, ◌^◌, ◌≤◌, ◌<◌, ◌≡◌, ◌≢◌, inl, inr, true, Option, none, some, List, arith,
  ◌==◌, to_ℕ, get_elem?, ok, Option-cases, if◌then◌else◌, is_some,
}
use cscrypto.Sodium.Memory.{region, read_only, no_access}
use cscrypto.Sodium.Heap.{Ptr, null, Heap, update, SodiumHeap}
use cscrypto.PrivateKey.{KeyObject, World, remove_at, clear}
use cscrypto.PrivateKey.Clear.{clear-last, clear-more}
use cscrypto.PrivateKey.Refs.{
  refs, refs-remove_at, AllObjects, AllObjects-get_elem?, AllObjects-remove_at,
}

abbrev pub Counters : Type 0
Counters = Ptr → Option ℕ

abbrev pub count_of : Option ℕ → ℕ
count_of none = 0
count_of (some n) = n

-- The objects, the guarded memory and the counters fit together; `mem_of` says which region the
-- objects of a counter share.
--   owned: an object points to the region of its counter;
--   counted: a counter counts at least the objects that refer to it (none if it is gone);
--   positive: a live counter is a positive `uint32_t`;
--   backed: the region of a live counter is NULL or allocated;
--   apart: two live counters share no region.
pub record IsSafe (mem_of : Ptr → Ptr) (objects : List KeyObject) (heap : Heap)
    (counters : Counters) : Type 0 where
  pub owned : AllObjects (λ o. o.mem ≡ mem_of o.ctr) objects
  pub counted : (c : Ptr) → refs c objects ≤ count_of (counters c)
  pub positive : (c n : ℕ) → counters c ≡ some n → (1 ≤ n) × (n < 2 ^ 32)
  pub backed :
      (c : Ptr) → is_some (counters c) ≡ true → mem_of c ≢ null → is_some (heap (mem_of c)) ≡ true
  pub apart :
      (c c' : Ptr)
      → is_some (counters c) ≡ true
      → is_some (counters c') ≡ true
      → mem_of c ≡ mem_of c'
      → mem_of c ≢ null
      → c ≡ c'

module _ {mem_of : Ptr → Ptr} where
  -- A counter that is not there can be removed once more, where no region changes.
  pub forget-IsSafe :
      {os : List KeyObject} {h : Heap} {k : Counters} (c : Ptr)
      → IsSafe mem_of os h k
      → k c ≡ none
      → IsSafe mem_of os h (update k c none)
  forget-IsSafe c s unused = record {
    owned = s.owned;
    counted = λ c'. ground (arith, s.counted c', unused);
    positive = λ c' n q. ground (arith, s.positive c' n);
    backed = λ c' q r. ground (arith, s.backed c');
    apart = λ c' c'' q r t u. ground (arith, s.apart c' c'');
  }

  -- A region that was opened and locked is still there.
  pub locked-IsSafe :
      {os : List KeyObject} {h : Heap} {k : Counters} (p : Ptr) (sk : List ℕ)
      → IsSafe mem_of os h k
      → is_some (h p) ≡ true
      → IsSafe mem_of os
          (update (update h p (some (region sk read_only))) p (some (region sk no_access)))
          k
  locked-IsSafe p sk s there = record {
    owned = s.owned;
    counted = s.counted;
    positive = s.positive;
    backed = λ c q r. ground (arith, s.backed c q r);
    apart = s.apart;
  }

  -- An object's counter is live.
  pub live :
      {os : List KeyObject} {h : Heap} {k : Counters} (i : ℕ) (o : KeyObject)
      → IsSafe mem_of os h k
      → get_elem? os i ≡ some o
      → (n : ℕ) × (k o.ctr ≡ some n) × (refs o.ctr os ≤ n) × (1 ≤ n) × (n < 2 ^ 32)
  live {os} {k} i o s e = elim (Option-cases (k o.ctr)) [
    | inl gone ↦ absurd (ground (arith, s.counted o.ctr, refs-remove_at o.ctr os i o e))
    | inr (n, e') ↦ (
      n,
      e',
      ground (arith, s.counted o.ctr),
      (s.positive o.ctr n e').0,
      (s.positive o.ctr n e').1,
    )
  ]

  -- Removing an object from the list is safe when the counters stay.
  pub remove-IsSafe :
      {os : List KeyObject} {h : Heap} {k : Counters} (i : ℕ) (o : KeyObject)
      → IsSafe mem_of os h k
      → get_elem? os i ≡ some o
      → IsSafe mem_of (remove_at os i) h k
  remove-IsSafe {os} i o s e = record {
    owned = AllObjects-remove_at _ os i s.owned;
    counted = λ c. omega (arith, s.counted c, refs-remove_at c os i o e);
    positive = s.positive;
    backed = s.backed;
    apart = s.apart;
  }

  -- One reference less, and others are left.
  decrement-IsSafe :
      {os : List KeyObject} {h : Heap} {k : Counters} (i : ℕ) (o : KeyObject) (n : ℕ)
      → IsSafe mem_of os h k
      → get_elem? os i ≡ some o
      → k o.ctr ≡ some (suc (suc n))
      → IsSafe mem_of (remove_at os i) h (update k o.ctr (some (suc n)))
  decrement-IsSafe {os} {k} i o n s e l = record {
    owned = AllObjects-remove_at _ os i s.owned;
    counted = λ c. ground (arith, s.counted c, refs-remove_at c os i o e, l);
    positive = λ c n' p. ground (arith, s.positive c n', s.positive o.ctr (suc (suc n)) l);
    backed = λ c p q. ground (arith, s.backed c, l);
    apart = λ c c' p q r t. ground (arith, s.apart c c', l);
  }

  -- The last reference goes, and the region and the counter with it.
  free-IsSafe :
      {os : List KeyObject} {h : Heap} {k : Counters} (i : ℕ) (o : KeyObject)
      → IsSafe mem_of os h k
      → get_elem? os i ≡ some o
      → k o.ctr ≡ some 1
      → IsSafe mem_of
          (remove_at os i)
          (if mem_of o.ctr == null then h else update h (mem_of o.ctr) none)
          (update (update k o.ctr (some 0)) o.ctr none)
  free-IsSafe {os} {k} i o s e l = record {
    owned = AllObjects-remove_at _ os i s.owned;
    counted = λ c. ground (arith, s.counted c, refs-remove_at c os i o e, l);
    positive = λ c n' p. ground (arith, s.positive c n');
    backed = λ c p q. ground (arith, s.backed c, s.apart c o.ctr, l);
    apart = λ c c' p q r t. ground (arith, s.apart c c', l);
  }

-- One more reference, to a live counter.
pub increment-IsSafe :
    (mem_of : Ptr → Ptr) (base os : List KeyObject) (h : Heap) (k : Counters) (c n : ℕ)
    → IsSafe mem_of base h k
    → k c ≡ some n
    → n + 1 < 2 ^ 32
    → AllObjects (λ o. o.mem ≡ mem_of o.ctr) os
    → ((c' : Ptr) → refs c' os ≡ refs c' base + to_ℕ (c == c'))
    → IsSafe mem_of os h (update k c (some ((n + 1) % 2 ^ 32)))
increment-IsSafe mem_of base os h k c n s l small all count = record {
  owned = all;
  counted = λ c'. ground (arith, s.counted c', count c', l);
  positive = λ c' n' p. ground (arith, s.positive c' n');
  backed = λ c' p q. ground (arith, s.backed c', l);
  apart = λ c' c'' p q r t. ground (arith, s.apart c' c'', l);
}

-- What `clear` did to the counters: one reference less on the object's own, and no other change.
pub record IsCleared (w : World) (o : KeyObject) (k : Counters) : Type 0 where
  pub kept : (c : Ptr) → c ≢ o.ctr → k c ≡ w.counters c
  pub counts : (c : Ptr) → count_of (k c) + to_ℕ (o.ctr == c) ≡ count_of (w.counters c)

module _ (m : SodiumHeap) {mem_of : Ptr → Ptr} where
  -- `clear` of a live object succeeds, keeps what the other objects need, and touches no other
  -- counter.
  pub clear-IsSafe :
      (w : World) (i : ℕ) (o : KeyObject)
      → IsSafe mem_of w.objects w.heap w.counters
      → get_elem? w.objects i ≡ some o
      → (h : Heap) × (k : Counters) × (clear m w o
          ≡ ok (record { objects = w.objects; heap = h; counters = k }))
        × IsSafe mem_of (remove_at w.objects i) h k
        × IsCleared w o k
  clear-IsSafe w i o s e =
      let here : o.mem ≡ mem_of o.ctr =
        AllObjects-get_elem? (λ x. x.mem ≡ mem_of x.ctr) w.objects i o s.owned e in
      let (n, l, many, pos, small) = live i o s e in clear_by n l pos small here
    where
      clear_by :
          (n : ℕ)
          → w.counters o.ctr ≡ some n
          → 1 ≤ n
          → n < 2 ^ 32
          → o.mem ≡ mem_of o.ctr
          → (h : Heap) × (k : Counters) × (clear m w o
              ≡ ok (record { objects = w.objects; heap = h; counters = k }))
            × IsSafe mem_of (remove_at w.objects i) h k
            × IsCleared w o k
      clear_by zero l pos small here = absurd (omega arith)
      clear_by (suc zero) l pos small here = (
        (if o.mem == null then w.heap else update w.heap o.mem none),
        update (update w.counters o.ctr (some 0)) o.ctr none,
        clear-last m w o l (rw here (λ q. s.backed o.ctr (rw l) q)),
        rw here (free-IsSafe i o s e l),
        record { kept = λ c q. ground arith; counts = λ c. ground (arith, l) },
      )
      clear_by (suc (suc n)) l pos small here = (
        w.heap,
        update w.counters o.ctr (some (suc n)),
        clear-more m w o n l small,
        decrement-IsSafe i o n s e l,
        record { kept = λ c q. ground arith; counts = λ c. ground (arith, l) },
      )
