-- ===== src/MemGuard/Owners.antt =====
-- How many guards have a pointer.
use mathlib.Core.Option.{some-injective}
use cscrypto.Base.{
  ℕ, zero, suc, ◌+◌, ◌<◌, ◌≡◌, ◌≢◌, refl, some, List, [], ◌∷◌, ◌++◌, arith, ◌==◌, to_ℕ, get_elem?,
  set, length, is_some, ap,
}
use cscrypto.Sodium.Heap.{Ptr, null}
use cscrypto.MemGuard.{Guards}
use cscrypto.PrivateKey.{remove_at}

unfoldable pub owners : Ptr → List Ptr → ℕ
owners p [] = 0
owners p (q ∷ qs) = to_ℕ (q == p) + owners p qs

pub owners-append :
    (p : Ptr) (qs : List Ptr) (q : Ptr) → owners p (qs ++ (q ∷ [])) ≡ owners p qs + to_ℕ (q == p)
unfolding owners
owners-append p [] q = omega arith
owners-append p (x ∷ qs) q = omega (arith, owners-append p qs q)

pub owners-set :
    (p : Ptr) (qs : List Ptr) (i : ℕ) (old new : Ptr)
    → get_elem? qs i ≡ some old
    → owners p (set qs i new) + to_ℕ (old == p) ≡ owners p qs + to_ℕ (new == p)
unfolding owners
owners-set p [] i old new e = cc
owners-set p (x ∷ qs) zero old new e = ground (arith, some-injective x old e)
owners-set p (x ∷ qs) (suc i) old new e = omega (arith, owners-set p qs i old new e)

pub owners-remove_at :
    (p : Ptr) (qs : List Ptr) (i : ℕ) (old : Ptr)
    → get_elem? qs i ≡ some old
    → owners p (remove_at qs i) + to_ℕ (old == p) ≡ owners p qs
unfolding owners
owners-remove_at p [] i old e = cc
owners-remove_at p (x ∷ qs) zero old e = ground (arith, some-injective x old e)
owners-remove_at p (x ∷ qs) (suc i) old e = omega (arith, owners-remove_at p qs i old e)

pub get_elem?-lt : (qs : List Ptr) (i : ℕ) → i < length qs → (q : Ptr) × (get_elem? qs i ≡ some q)
get_elem?-lt [] i h = absurd (omega arith)
get_elem?-lt (x ∷ qs) zero h = (x, refl)
get_elem?-lt (x ∷ qs) (suc i) h = get_elem?-lt qs i (omega arith)

pub get_elem?-set_self :
    (qs : List Ptr) (i : ℕ) (old new : Ptr)
    → get_elem? qs i ≡ some old
    → get_elem? (set qs i new) i ≡ some new
get_elem?-set_self [] i old new e = cc
get_elem?-set_self (x ∷ qs) zero old new e = refl
get_elem?-set_self (x ∷ qs) (suc i) old new e = get_elem?-set_self qs i old new e

pub get_elem?-set_ne :
    (qs : List Ptr) (i j : ℕ) (new : Ptr) → i ≢ j → get_elem? (set qs i new) j ≡ get_elem? qs j
get_elem?-set_ne [] i j new ne = refl
get_elem?-set_ne (x ∷ qs) zero zero new ne = absurd (ne refl)
get_elem?-set_ne (x ∷ qs) zero (suc j) new ne = refl
get_elem?-set_ne (x ∷ qs) (suc i) zero new ne = refl
get_elem?-set_ne (x ∷ qs) (suc i) (suc j) new ne = get_elem?-set_ne qs i j new (λ e. ne (ap suc e))

pub length-remove_at :
    (qs : List Ptr) (i : ℕ) → i < length qs → suc (length (remove_at qs i)) ≡ length qs
length-remove_at [] i h = absurd (omega arith)
length-remove_at (x ∷ qs) zero h = refl
length-remove_at (x ∷ qs) (suc i) h = ap suc (length-remove_at qs i (omega arith))

-- Every region has one guard, and the pointer of every guard is NULL or an allocated region.
abbrev pub IsOwned : Guards → Type 0
IsOwned w = (p : Ptr) → p ≢ null → owners p w.mems ≡ to_ℕ (is_some (w.heap p))
