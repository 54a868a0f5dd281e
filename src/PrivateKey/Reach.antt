-- ===== src/PrivateKey/Reach.antt =====
-- Whole programs: any sequence of operations on `PrivateKey` objects.
use cscrypto.Base.{
  ℕ, ◌≤◌, ◌≡◌, ◌≢◌, refl, subst, sym, ◌∙◌, true, none, some, [], get_elem?, ok, ok_injective,
  is_some, arith, Option-cases, inl, inr,
}
use cscrypto.Sodium.Heap.{Ptr, null, SodiumHeap}
use cscrypto.PrivateKey.{KeyObject, World}
use cscrypto.PrivateKey.Ops.{Op, IsReady, run}
use cscrypto.PrivateKey.Refs.{refs, AllObjects-get_elem?}
use cscrypto.PrivateKey.Safety.{live, count_of}
use cscrypto.PrivateKey.Sharing.{IsSafeWorld}
use cscrypto.PrivateKey.Steps.{run-IsSafe}
use cscrypto.PrivateKey.Leaks.{IsExact, NoAlias}
use cscrypto.PrivateKey.Counting.{run-IsExact}
use cscrypto.Sodium.Aead.{SodiumAead, SodiumPwhash}

-- No objects, no counters and no regions.
abbrev pub empty_world : World
empty_world = record { objects = []; heap = λ p. none; counters = λ c. none }

-- The worlds that a program can reach.
pub data Reach (m : SodiumHeap) (aead : SodiumAead) (ph : SodiumPwhash) : World → Type 0 where
  start : Reach m aead ph empty_world
  next :
      {w w' : World} (op : Op)
      → Reach m aead ph w
      → IsReady m aead ph op w
      → run m aead ph op w ≡ ok w'
      → Reach m aead ph w'

-- Those that it reaches with no assignment between objects of one region.
pub data ReachApart (m : SodiumHeap) (aead : SodiumAead) (ph : SodiumPwhash) : World → Type 0 where
  start : ReachApart m aead ph empty_world
  next :
      {w w' : World} (op : Op)
      → ReachApart m aead ph w
      → IsReady m aead ph op w
      → NoAlias op w
      → run m aead ph op w ≡ ok w'
      → ReachApart m aead ph w'

empty_world-IsSafe : IsSafeWorld empty_world
unfolding refs
empty_world-IsSafe = (
  (λ c. null),
  record {
    owned = tt;
    counted = λ c. omega arith;
    positive = λ c n e. cc;
    backed = λ c e. cc;
    apart = λ c c' e e'. cc;
  },
)

pub Reach-IsSafe :
    (m : SodiumHeap) (aead : SodiumAead) (ph : SodiumPwhash) {w : World}
    → Reach m aead ph w
    → IsSafeWorld w
Reach-IsSafe m aead ph Reach.start = empty_world-IsSafe
Reach-IsSafe m aead ph (Reach.next {w} op r ready e) =
    let (w', e', safe) = run-IsSafe m aead ph op w (Reach-IsSafe m aead ph r) ready in
    subst IsSafeWorld (ok_injective (sym e' ∙ e)) safe

-- In every world that a program reaches by operations whose needs are met (`IsReady`), the counter
-- of each live object is there and positive, and its region, where it has one, is allocated.
pub Reach-alive :
    (m : SodiumHeap) (aead : SodiumAead) (ph : SodiumPwhash) {w : World} (i : ℕ) (o : KeyObject)
    → Reach m aead ph w
    → get_elem? w.objects i ≡ some o
    → (n : ℕ) × (w.counters o.ctr ≡ some n)
      × (1 ≤ n)
      × (o.mem ≢ null → is_some (w.heap o.mem) ≡ true)
Reach-alive m aead ph {w} i o r e =
    let (mem_of, s) = Reach-IsSafe m aead ph r in
    let (n, l, many, pos, small) = live i o s e in
    let here = AllObjects-get_elem? (λ x. x.mem ≡ mem_of x.ctr) w.objects i o s.owned e in
    (n, l, pos, λ q. rw here (s.backed o.ctr (rw l) (λ z. q (here ∙ z))))

pub ReachApart-Reach :
    (m : SodiumHeap) (aead : SodiumAead) (ph : SodiumPwhash) {w : World}
    → ReachApart m aead ph w
    → Reach m aead ph w
ReachApart-Reach m aead ph ReachApart.start = Reach.start
ReachApart-Reach m aead ph (ReachApart.next op r ready apart e) =
    Reach.next op (ReachApart-Reach m aead ph r) ready e

pub ReachApart-IsExact :
    (m : SodiumHeap) (aead : SodiumAead) (ph : SodiumPwhash) {w : World}
    → ReachApart m aead ph w
    → IsExact w
unfolding refs
ReachApart-IsExact m aead ph ReachApart.start = λ c. refl
ReachApart-IsExact m aead ph (ReachApart.next {w} op r ready apart e) =
    let (w', e', exact) =
      run-IsExact m aead ph op w (Reach-IsSafe m aead ph (ReachApart-Reach m aead ph r)) ready apart
        (ReachApart-IsExact m aead ph r) in
    subst IsExact (ok_injective (sym e' ∙ e)) exact

-- A program of operations whose needs are met (`IsReady`) that never assigns between objects of
-- one region has freed every counter once all its objects are gone.
pub ReachApart-released :
    (m : SodiumHeap) (aead : SodiumAead) (ph : SodiumPwhash) {w : World} (c : Ptr)
    → ReachApart m aead ph w
    → w.objects ≡ []
    → w.counters c ≡ none
unfolding refs
ReachApart-released m aead ph {w} c r gone =
    let exact = ReachApart-IsExact m aead ph r c in
    let (mem_of, s) = Reach-IsSafe m aead ph (ReachApart-Reach m aead ph r) in
    elim (Option-cases (w.counters c)) [
      | inl none_left ↦ none_left
      | inr (n, l) ↦ absurd (released_count w c n l exact gone (s.positive c n l).0)
    ]
  where
    released_count :
        (w : World) (c n : Ptr)
        → w.counters c ≡ some n
        → count_of (w.counters c) ≡ refs c w.objects
        → w.objects ≡ []
        → 1 ≤ n
        → ⊥
    released_count w c n l exact gone pos =
        let nothing : refs c w.objects ≡ 0 = rw gone refl in
        let count : count_of (w.counters c) ≡ n = rw l refl in omega arith
