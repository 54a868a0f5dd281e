-- ===== src/PrivateKey/Leaks.antt =====
-- When the counters of `PrivateKey` count exactly the objects, and the assignment that breaks this:
-- src/privatekey.cpp, `operator=` calls `clear` only where the two regions differ, and increments
-- the counter in any case.
use cscrypto.Base.{
  ℕ, ◌+◌, ◌%◌, ◌^◌, ◌<◌, ◌≡◌, ◌≢◌, ◌↔◌, ap, ◌∙◌, inl, inr, Bool-cases, some, arith, ◌==◌, get_elem?,
  set, ok,
}
use cscrypto.Sodium.Heap.{Ptr, Heap, update, SodiumHeap}
use cscrypto.PrivateKey.{KeyObject, World, increment, assign}
use cscrypto.PrivateKey.Ops.{Op, assigns, HasRoom}
use cscrypto.PrivateKey.Refs.{refs, refs-remove_at, refs-set, AllObjects-get_elem?}
use cscrypto.PrivateKey.Safety.{IsSafe, Counters, count_of, IsCleared, clear-IsSafe, live}

-- Every counter counts exactly the objects that refer to it, so none is kept alive by nobody.
abbrev pub IsExact : World → Type 0
IsExact w = (c : Ptr) → count_of (w.counters c) ≡ refs c w.objects

-- An assignment is between objects of different regions.
abbrev pub NoAlias : Op → World → Type 0
NoAlias (assigns i j) w =
    (self rhs : KeyObject)
    → get_elem? w.objects i ≡ some self
    → get_elem? w.objects j ≡ some rhs
    → rhs.mem ≢ self.mem
NoAlias _ w = Unit {0}

module _ (m : SodiumHeap) (mem_of : Ptr → Ptr) (w : World)
    (s : IsSafe mem_of w.objects w.heap w.counters) (exact : IsExact w) where
  -- Without a `clear` the counts cannot be right: the counter of `rhs` is one too high if both
  -- objects refer to it, and that of `self` if they do not.
  uncleared :
      (i : ℕ) (self rhs : KeyObject) (n n' : ℕ)
      → get_elem? w.objects i ≡ some self
      → w.counters rhs.ctr ≡ some n
      → w.counters self.ctr ≡ some n'
      → n + 1 < 2 ^ 32
      → IsExact (record {
        objects = set w.objects i rhs;
        heap = w.heap;
        counters = update w.counters rhs.ctr (some ((n + 1) % 2 ^ 32));
      })
      → ⊥
  uncleared i self rhs n n' e l l' room ex = ground (
    arith,
    ex rhs.ctr,
    ex self.ctr,
    exact rhs.ctr,
    exact self.ctr,
    refs-set rhs.ctr w.objects i self rhs e,
    refs-set self.ctr w.objects i self rhs e,
    refs-remove_at rhs.ctr w.objects i self e,
    refs-remove_at self.ctr w.objects i self e,
  )

  reassigned_counts :
      (i : ℕ) (self rhs : KeyObject) (h : Heap) (k : Counters) (n : ℕ)
      → get_elem? w.objects i ≡ some self
      → IsCleared w self k
      → k rhs.ctr ≡ some n
      → n + 1 < 2 ^ 32
      → IsExact (record {
        objects = set w.objects i rhs;
        heap = h;
        counters = update k rhs.ctr (some ((n + 1) % 2 ^ 32));
      })
  reassigned_counts i self rhs h k n e cleared l room c = ground (
    arith,
    cleared.counts c,
    exact c,
    refs-set c w.objects i self rhs e,
    refs-remove_at c w.objects i self e,
  )

  -- Where every counter counts exactly the objects that refer to it, an assignment between live
  -- objects succeeds, and leaves every counter exact exactly when the two objects have different
  -- regions.
  pub assign-IsExact_iff :
      (i j : ℕ) (self rhs : KeyObject)
      → get_elem? w.objects i ≡ some self
      → get_elem? w.objects j ≡ some rhs
      → HasRoom w rhs
      → (w' : World) × (assign m i j w ≡ ok w') × (IsExact w' ↔ (rhs.mem ≢ self.mem))
  unfolding assign increment
  assign-IsExact_iff i j self rhs e e' room =
      let (n, l, many, pos, small) = live j rhs s e' in
      let (n', l', many', pos', small') = live i self s e in
      let here = AllObjects-get_elem? (λ x. x.mem ≡ mem_of x.ctr) w.objects i self s.owned e in
      let there = AllObjects-get_elem? (λ x. x.mem ≡ mem_of x.ctr) w.objects j rhs s.owned e' in
      elim (Bool-cases (rhs.mem == self.mem)) [
        | inl same ↦ (
          record {
            objects = set w.objects i rhs;
            heap = w.heap;
            counters = update w.counters rhs.ctr (some ((n + 1) % 2 ^ 32));
          },
          rw (e, e', same, l),
          (
            λ ex q. uncleared i self rhs n n' e l l' (room n l) ex,
            λ ne. absurd (ne (ground arith)),
          ),
        )
        | inr other ↦
            let (h, k, ran, safe, cleared) = clear-IsSafe m w i self s e in
            let l2 : k rhs.ctr ≡ some n =
              cleared.kept rhs.ctr (λ q. ground (arith, here, there, other, ap mem_of q)) ∙ l in
            (
              record {
                objects = set w.objects i rhs;
                heap = h;
                counters = update k rhs.ctr (some ((n + 1) % 2 ^ 32));
              },
              rw (e, e', other, ran, l2),
              (
                λ ex q. ground (arith, other),
                λ ne. reassigned_counts i self rhs h k n e cleared l2 (room n l),
              ),
            )
      ]
