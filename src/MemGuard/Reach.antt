-- ===== src/MemGuard/Reach.antt =====
-- Whole programs on guards.
use cscrypto.Base.{
  ℕ, ◌+◌, ◌-◌, ◌≡◌, ◌≢◌, refl, subst, sym, ◌∙◌, Bool, true, ◌&&◌, none, List, [], ◌∷◌, arith, ltb,
  length, ok, to_ℕ, is_some,
}
use cscrypto.Sodium.Heap.{Ptr, null, SodiumHeap}
use cscrypto.MemGuard.{Guards, Op, constructs, moves, clears, destroys, assigns, run, run_all}
use cscrypto.MemGuard.Owners.{owners, IsOwned}
use cscrypto.MemGuard.Steps.{
  Keeps, construct-Keeps, clear-Keeps, destroy-Keeps, move_construct-Keeps, move_assign-Keeps,
}

-- No guards and no regions.
abbrev pub empty_guards : Guards
empty_guards = record { mems = []; heap = λ p. none }

-- The number of guards after an operation, where there were `n`.
abbrev pub count_after : Op → ℕ → ℕ
count_after (constructs choice) n = n + 1
count_after (moves j) n = n + 1
count_after (clears i) n = n
count_after (destroys i) n = n - 1
count_after (assigns i j) n = n

-- An operation names guards that are there, where there are `n`.
abbrev pub names_guards : Op → ℕ → Bool
names_guards (constructs choice) n = true
names_guards (moves j) n = ltb j n
names_guards (clears i) n = ltb i n
names_guards (destroys i) n = ltb i n
names_guards (assigns i j) n = ltb i n && ltb j n

-- Every operation of a program does so, where there are `n` guards before the first.
abbrev pub all_name_guards : List Op → ℕ → Bool
all_name_guards [] n = true
all_name_guards (op ∷ ops) n = names_guards op n && all_name_guards ops (count_after op n)

abbrev pub count_after_all : List Op → ℕ → ℕ
count_after_all [] n = n
count_after_all (op ∷ ops) n = count_after_all ops (count_after op n)

empty_guards-IsOwned : IsOwned empty_guards
unfolding owners
empty_guards-IsOwned p ne = refl

module _ (m : SodiumHeap) (size : ℕ) where
  run-Keeps :
      (op : Op) (w : Guards)
      → IsOwned w
      → names_guards op (length w.mems) ≡ true
      → Keeps (count_after op (length w.mems)) (run m size op w)
  unfolding run
  run-Keeps (constructs choice) w owned h = construct-Keeps m size choice w owned
  run-Keeps (moves j) w owned h = move_construct-Keeps m size j w owned (ground (arith, h))
  run-Keeps (clears i) w owned h = clear-Keeps m size i w owned (ground (arith, h))
  run-Keeps (destroys i) w owned h = destroy-Keeps m size i w owned (ground (arith, h))
  run-Keeps (assigns i j) w owned h =
      move_assign-Keeps m size i j w owned (ground (arith, h)) (ground (arith, h))

  run_all-Keeps :
      (ops : List Op) (w : Guards) (n : ℕ)
      → length w.mems ≡ n
      → IsOwned w
      → all_name_guards ops n ≡ true
      → Keeps (count_after_all ops n) (run_all m size ops w)
  unfolding run_all
  run_all-Keeps [] w n l owned h = (w, refl, owned, l)
  run_all-Keeps (op ∷ ops) w n l owned h =
      let here : names_guards op n ≡ true = ground (arith, h) in
      let (next, ran, owned', l') =
        run-Keeps op w owned (subst (λ (k : ℕ). names_guards op k ≡ true) (sym l) here) in
      let (last, ran', owned'', l'') =
        run_all-Keeps ops next (count_after op n)
          (l' ∙ subst (λ (k : ℕ). count_after op (length w.mems) ≡ count_after op k) l refl) owned'
          (ground (arith, h)) in
      (last, rw ran ran', owned'', l'')

  -- Any program of constructions, moves, clears and destructions of guards, each of guards that are there, moves to
  -- oneself and from cleared guards included, whatever the allocator answers: it ends without a fault, so that
  -- nothing is freed twice, every allocated region has exactly one guard, and no guard points to
  -- memory that was freed.
  pub run_all-IsOwned :
      (ops : List Op)
      → all_name_guards ops 0 ≡ true
      → (w : Guards) × (run_all m size ops empty_guards ≡ ok w)
        × ((p : Ptr) → p ≢ null → owners p w.mems ≡ to_ℕ (is_some (w.heap p)))
        × (length w.mems ≡ count_after_all ops 0)
  run_all-IsOwned ops h = run_all-Keeps ops empty_guards 0 refl empty_guards-IsOwned h
