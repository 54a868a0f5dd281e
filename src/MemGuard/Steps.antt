-- ===== src/MemGuard/Steps.antt =====
-- Every operation on guards keeps each region with one owner.
use mathlib.Core.Option.{some-injective}
use cscrypto.Base.{
  ℕ, ◌+◌, ◌-◌, ◌<◌, ◌≡◌, ◌≢◌, inl, inr, refl, sym, ap, ◌∙◌, Bool-cases, true, false, some, none, [],
  ◌∷◌, ◌++◌, arith, ◌==◌, is_some, if◌then◌else◌, get_elem?, set, length, length-append, length-set,
  Outcome, ok,
}
use cscrypto.Sodium.Heap.{Ptr, null, Heap, update, SodiumHeap}
use cscrypto.PrivateKey.{remove_at}
use cscrypto.PrivateKey.Clear.{release-ok}
use cscrypto.MemGuard.{Guards, construct, clear, move_construct, move_assign, destroy}
use cscrypto.MemGuard.Owners.{
  owners-append, owners-set, owners-remove_at, get_elem?-lt, get_elem?-set_self, get_elem?-set_ne,
  length-remove_at, IsOwned,
}

-- A result with so many guards, in which every region has one owner.
abbrev pub Keeps : ℕ → Outcome Guards → Type 0
Keeps n result = (w : Guards) × (result ≡ ok w) × IsOwned w × (length w.mems ≡ n)

module _ (m : SodiumHeap) (size : ℕ) where
  pub construct-Keeps :
      (choice : Ptr) (w : Guards)
      → IsOwned w
      → Keeps (length w.mems + 1) (ok (construct m size choice w))
  unfolding construct
  construct-Keeps choice w owned = elim (m.malloc_lem choice size w.heap) [
    | inl failed ↦ (
      _,
      refl,
      λ p ne. rw failed (ground (arith, owned p ne, ne, owners-append p w.mems null)),
      length-append w.mems _,
    )
    | inr (ne, new, garbage, l, grown) ↦ (
      _,
      refl,
      λ p ne'. rw grown (
          ground (arith, owned p ne', new, owners-append p w.mems (m.malloc choice size w.heap).0)),
      length-append w.mems _,
    )
  ]

  -- The heap once a pointer is freed.
  abbrev freed : Ptr → Heap → Heap
  freed mem h = if mem == null then h else update h mem none

  clear_lem :
      (i : ℕ) (mem : Ptr) (w : Guards)
      → IsOwned w
      → get_elem? w.mems i ≡ some mem
      → clear m size i w ≡ ok (record { mems = set w.mems i null; heap = freed mem w.heap })
  unfolding clear
  clear_lem i mem w owned e =
      let backed : mem ≢ null → is_some (w.heap mem) ≡ true =
        λ ne. ground (arith, owned mem ne, owners-remove_at mem w.mems i mem e) in
      rw (e, release-ok m mem w.heap backed) refl

  cleared-IsOwned :
      (i : ℕ) (mem : Ptr) (w : Guards)
      → IsOwned w
      → get_elem? w.mems i ≡ some mem
      → IsOwned (record { mems = set w.mems i null; heap = freed mem w.heap })
  cleared-IsOwned i mem w owned e p ne =
      ground (arith, owned p ne, ne, owners-set p w.mems i mem null e)

  pub clear-Keeps :
      (i : ℕ) (w : Guards)
      → IsOwned w
      → i < length w.mems
      → Keeps (length w.mems) (clear m size i w)
  clear-Keeps i w owned h =
      let (mem, e) = get_elem?-lt w.mems i h in
      (_, clear_lem i mem w owned e, cleared-IsOwned i mem w owned e, length-set w.mems i null)

  pub destroy-Keeps :
      (i : ℕ) (w : Guards)
      → IsOwned w
      → i < length w.mems
      → Keeps (length w.mems - 1) (destroy m size i w)
  unfolding destroy
  destroy-Keeps i w owned h =
      let (mem, e) = get_elem?-lt w.mems i h in
      let owned' = cleared-IsOwned i mem w owned e in
      let at = get_elem?-set_self w.mems i mem null e in
      (
        record { mems = remove_at (set w.mems i null) i; heap = freed mem w.heap },
        rw (clear_lem i mem w owned e) refl,
        λ p ne. ground (arith, owned' p ne, ne, owners-remove_at p (set w.mems i null) i null at),
        omega (
          arith,
          length-set w.mems i null,
          length-remove_at (set w.mems i null) i (omega (arith, h, length-set w.mems i null)),
        ),
      )

  pub move_construct-Keeps :
      (j : ℕ) (w : Guards)
      → IsOwned w
      → j < length w.mems
      → Keeps (length w.mems + 1) (move_construct m size j w)
  unfolding move_construct
  move_construct-Keeps j w owned h =
      let (rhs, e) = get_elem?-lt w.mems j h in
      (
        record w { mems = set w.mems j null ++ (rhs ∷ []) },
        rw e refl,
        λ p ne. ground (
          arith,
          owned p ne,
          ne,
          owners-append p (set w.mems j null) rhs,
          owners-set p w.mems j rhs null e,
        ),
        length-append (set w.mems j null) _ ∙ ap (λ (n : ℕ). n + 1) (length-set w.mems j null),
      )

  pub move_assign-Keeps :
      (i j : ℕ) (w : Guards)
      → IsOwned w
      → i < length w.mems
      → j < length w.mems
      → Keeps (length w.mems) (move_assign m size i j w)
  unfolding move_assign
  move_assign-Keeps i j w owned h h' =
      let (self, e) = get_elem?-lt w.mems i h in
      let (rhs, e') = get_elem?-lt w.mems j h' in
      let apart : (rhs == self) ≡ false → i ≢ j = λ other q.
        ground (arith, other, some-injective self rhs (sym e ∙ ap (get_elem? w.mems) q ∙ e')) in
      elim (Bool-cases (rhs == self)) [
        | inl same ↦ (w, rw (e, e', same) refl, owned, refl)
        | inr other ↦ (
          record { mems = set (set (set w.mems i null) i rhs) j null; heap = freed self w.heap },
          rw (e, e', other, clear_lem i self w owned e) refl,
          λ p ne. ground (
            arith,
            cleared-IsOwned i self w owned e p ne,
            ne,
            owners-set p (set w.mems i null) i null rhs (get_elem?-set_self w.mems i self null e),
            owners-set p (set (set w.mems i null) i rhs) j rhs null (
                get_elem?-set_ne (set w.mems i null) i j rhs (apart other)
                ∙ get_elem?-set_ne w.mems i j null (apart other)
                ∙ e'),
          ),
          length-set _ j null ∙ length-set _ i rhs ∙ length-set w.mems i null,
        )
      ]
