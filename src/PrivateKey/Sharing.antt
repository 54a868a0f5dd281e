-- ===== src/PrivateKey/Sharing.antt =====
-- Copies, assignments and destructors succeed on `PrivateKey` objects and keep them safe.
use cscrypto.Base.{
  ℕ, ◌+◌, ◌%◌, ◌^◌, ◌<◌, ◌≡◌, ap, ◌∙◌, inl, inr, Bool-cases, some, [], ◌∷◌, ◌++◌, arith, ◌==◌,
  get_elem?, set, ok,
}
use cscrypto.Sodium.Heap.{Ptr, Heap, update, SodiumHeap}
use cscrypto.PrivateKey.{KeyObject, World, remove_at, increment, copy_construct, assign, destroy}
use cscrypto.PrivateKey.Ops.{Op, copies, assigns, destroys, IsReady, run}
use cscrypto.Sodium.Aead.{SodiumAead, SodiumPwhash}
use cscrypto.PrivateKey.Refs.{
  refs-append, refs-set, AllObjects-get_elem?, AllObjects-append, AllObjects-set,
}
use cscrypto.PrivateKey.Safety.{
  IsSafe, Counters, increment-IsSafe, remove-IsSafe, clear-IsSafe, live,
}

abbrev pub IsSafeWorld : World → Type 0
IsSafeWorld w = (mem_of : Ptr → Ptr) × IsSafe mem_of w.objects w.heap w.counters

-- The operation succeeds and the objects are safe after it.
abbrev pub SucceedsSafely : SodiumHeap → SodiumAead → SodiumPwhash → Op → World → Type 0
SucceedsSafely m aead ph op w = (w' : World) × (run m aead ph op w ≡ ok w') × IsSafeWorld w'

module _ (m : SodiumHeap) (aead : SodiumAead) (ph : SodiumPwhash) (mem_of : Ptr → Ptr) (w : World)
    (s : IsSafe mem_of w.objects w.heap w.counters) where
  pub destroy-IsSafe :
      (i : ℕ) → IsReady m aead ph (destroys i) w → SucceedsSafely m aead ph (destroys i) w
  unfolding run destroy
  destroy-IsSafe i (o, e) =
      let (h, k, ran, safe, other) = clear-IsSafe m w i o s e in
      (
        record { objects = remove_at w.objects i; heap = h; counters = k },
        rw (e, ran),
        (mem_of, safe),
      )

  pub copy_construct-IsSafe :
      (j : ℕ) → IsReady m aead ph (copies j) w → SucceedsSafely m aead ph (copies j) w
  unfolding run copy_construct increment
  copy_construct-IsSafe j (o, e, room) =
      let (n, l, many, pos, small) = live j o s e in
      let here = AllObjects-get_elem? (λ x. x.mem ≡ mem_of x.ctr) w.objects j o s.owned e in
      (
        record {
          objects = w.objects ++ (o ∷ []);
          heap = w.heap;
          counters = update w.counters o.ctr (some ((n + 1) % 2 ^ 32));
        },
        rw (e, l),
        (
          mem_of,
          increment-IsSafe mem_of w.objects (w.objects ++ (o ∷ [])) w.heap w.counters o.ctr n s l
              (room n l) (AllObjects-append _ w.objects o s.owned here)
              (λ c. refs-append c w.objects o),
        ),
      )

  pub assign-IsSafe :
      (i j : ℕ) → IsReady m aead ph (assigns i j) w → SucceedsSafely m aead ph (assigns i j) w
  unfolding run assign increment
  assign-IsSafe i j (self, rhs, e, e', room) =
      let (n, l, many, pos, small) = live j rhs s e' in
      let here = AllObjects-get_elem? (λ x. x.mem ≡ mem_of x.ctr) w.objects i self s.owned e in
      let there = AllObjects-get_elem? (λ x. x.mem ≡ mem_of x.ctr) w.objects j rhs s.owned e' in
      elim (Bool-cases (rhs.mem == self.mem)) [
        | inl same ↦ (
          record {
            objects = set w.objects i rhs;
            heap = w.heap;
            counters = update w.counters rhs.ctr (some ((n + 1) % 2 ^ 32));
          },
          rw (e, e', same, l),
          (
            mem_of,
            reassigned i self rhs w.heap w.counters n e (remove-IsSafe i self s e) there l
                (room n l),
          ),
        )
        | inr other ↦
            let (h, k, ran, safe, kept) = clear-IsSafe m w i self s e in
            let l' : k rhs.ctr ≡ some n =
              kept.kept rhs.ctr (λ q. ground (arith, here, there, other, ap mem_of q)) ∙ l in
            (
              record {
                objects = set w.objects i rhs;
                heap = h;
                counters = update k rhs.ctr (some ((n + 1) % 2 ^ 32));
              },
              rw (e, e', other, ran, l'),
              (mem_of, reassigned i self rhs h k n e safe there l' (room n l)),
            )
      ]
    where
      reassigned :
          (i : ℕ) (self rhs : KeyObject) (h : Heap) (k : Counters) (n : ℕ)
          → get_elem? w.objects i ≡ some self
          → IsSafe mem_of (remove_at w.objects i) h k
          → rhs.mem ≡ mem_of rhs.ctr
          → k rhs.ctr ≡ some n
          → n + 1 < 2 ^ 32
          → IsSafe mem_of (set w.objects i rhs) h (update k rhs.ctr (some ((n + 1) % 2 ^ 32)))
      reassigned i self rhs h k n e safe there l room =
          increment-IsSafe mem_of (remove_at w.objects i) (set w.objects i rhs) h k rhs.ctr n safe l
            room (AllObjects-set _ w.objects i rhs s.owned there)
            (λ c. refs-set c w.objects i self rhs e)
