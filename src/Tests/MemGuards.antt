-- ===== src/Tests/MemGuards.antt =====
-- A program on guards.
use cscrypto.Base.{◌≡◌, ◌≢◌, refl, List, [], ◌∷◌, ok, length, to_ℕ, is_some}
use cscrypto.Sodium.Heap.{Ptr, null}
use cscrypto.MemGuard.{Guards, Op, constructs, moves, clears, destroys, assigns, run_all}
use cscrypto.MemGuard.Owners.{owners}
use cscrypto.MemGuard.Reach.{empty_guards, run_all-IsOwned}
use cscrypto.Tests.PrivateKeys.{simple_heap}

-- The third construction is refused by the allocator, which offers a place that is taken.
abbrev guarding : List Op
guarding =
    constructs 10
    ∷ constructs 20
    ∷ constructs 10
    ∷ moves 0
    ∷ assigns 1 3
    ∷ assigns 1 1
    ∷ clears 2
    ∷ destroys 0
    ∷ []

run_all-IsOwned_example :
    (w : Guards) × (run_all simple_heap 32 guarding empty_guards ≡ ok w)
    × ((p : Ptr) → p ≢ null → owners p w.mems ≡ to_ℕ (is_some (w.heap p)))
    × (length w.mems ≡ 3)
run_all-IsOwned_example = run_all-IsOwned simple_heap 32 guarding refl
