-- ===== src/MemGuard.antt =====
-- include/cscrypto/memoryprotection.hpp: `MemGuard` objects, each the owner of a guarded region. A world
-- holds the pointers of all live guards and the guarded memory.
pub mod Owners
pub mod Steps
pub mod Reach
use cscrypto.Base.{ℕ, List, [], ◌∷◌, ◌++◌, set, ◌==◌, if◌then◌else◌, Outcome, ok, ◌>>=◌, read}
use cscrypto.Sodium.Heap.{Ptr, null, Heap, SodiumHeap}
use cscrypto.PrivateKey.{release, remove_at}

pub record Guards : Type 0 where
  pub mems : List Ptr
  pub heap : Heap

-- `size` is `Size * sizeof(T)`.
module _ (m : SodiumHeap) (size : ℕ) where
  -- `MemGuard()`; `choice` is what the allocator chooses.
  unfoldable pub construct : Ptr → Guards → Guards
  construct choice w =
      let (p, h) = m.malloc choice size w.heap in record { mems = w.mems ++ (p ∷ []); heap = h }

  -- `clear` of guard `i`.
  unfoldable pub clear : ℕ → Guards → Outcome Guards
  clear i w = do
    mem ← read w.mems i
    h ← release m mem w.heap
    ok (record { mems = set w.mems i null; heap = h })

  -- `MemGuard(MemGuard&&)`, of guard `j`.
  unfoldable pub move_construct : ℕ → Guards → Outcome Guards
  move_construct j w = do
    rhs ← read w.mems j
    ok (record w { mems = set w.mems j null ++ (rhs ∷ []) })

  -- `*guards[i] = std::move(*guards[j])`.
  unfoldable pub move_assign : ℕ → ℕ → Guards → Outcome Guards
  move_assign i j w = do
    self ← read w.mems i
    rhs ← read w.mems j
    if rhs == self
        then ok w
        else (do w' ← clear i w; ok (record w' { mems = set (set w'.mems i rhs) j null }))

  -- `~MemGuard()` of guard `i`.
  unfoldable pub destroy : ℕ → Guards → Outcome Guards
  destroy i w = do w' ← clear i w; ok (record w' { mems = remove_at w'.mems i })

-- The operations of a program on its guards.
pub data Op : Type 0 where
  constructs : Ptr → Op
  moves clears destroys : ℕ → Op
  assigns : ℕ → ℕ → Op

module _ (m : SodiumHeap) (size : ℕ) where
  unfoldable pub run : Op → Guards → Outcome Guards
  run (constructs choice) w = ok (construct m size choice w)
  run (moves j) w = move_construct m size j w
  run (clears i) w = clear m size i w
  run (destroys i) w = destroy m size i w
  run (assigns i j) w = move_assign m size i j w

  unfoldable pub run_all : List Op → Guards → Outcome Guards
  run_all [] w = ok w
  run_all (op ∷ ops) w = do w' ← run op w; run_all ops w'
