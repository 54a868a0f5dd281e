-- ===== src/PrivateKey/Refs.antt =====
-- How many objects refer to a counter, and predicates of all objects.
use cscrypto.Base.{
  ℕ, zero, suc, ◌+◌, ◌≡◌, List, [], ◌∷◌, ◌++◌, arith, ◌==◌, to_ℕ, get_elem?, set, some, subst,
}
use mathlib.Core.Option.{some-injective}
use cscrypto.PrivateKey.{KeyObject, remove_at}
use cscrypto.Sodium.Heap.{Ptr}

unfoldable pub refs : Ptr → List KeyObject → ℕ
refs c [] = 0
refs c (o ∷ os) = to_ℕ (o.ctr == c) + refs c os

pub refs-append :
    (c : Ptr) (os : List KeyObject) (o : KeyObject)
    → refs c (os ++ (o ∷ [])) ≡ refs c os + to_ℕ (o.ctr == c)
unfolding refs
refs-append c [] o = omega arith
refs-append c (x ∷ os) o = omega (arith, refs-append c os o)

pub refs-remove_at :
    (c : Ptr) (os : List KeyObject) (i : ℕ) (o : KeyObject)
    → get_elem? os i ≡ some o
    → refs c os ≡ refs c (remove_at os i) + to_ℕ (o.ctr == c)
unfolding refs
refs-remove_at c [] i o e = cc
refs-remove_at c (x ∷ os) zero o e = ground arith
refs-remove_at c (x ∷ os) (suc i) o e = omega (arith, refs-remove_at c os i o e)

pub refs-set :
    (c : Ptr) (os : List KeyObject) (i : ℕ) (o new : KeyObject)
    → get_elem? os i ≡ some o
    → refs c (set os i new) ≡ refs c (remove_at os i) + to_ℕ (new.ctr == c)
unfolding refs
refs-set c [] i o new e = cc
refs-set c (x ∷ os) zero o new e = omega arith
refs-set c (x ∷ os) (suc i) o new e = omega (arith, refs-set c os i o new e)

-- Every object satisfies the predicate.
abbrev pub AllObjects : (KeyObject → Type 0) → List KeyObject → Type 0
AllObjects P [] = Unit {0}
AllObjects P (o ∷ os) = P o × AllObjects P os

module _ (P : KeyObject → Type 0) where
  pub AllObjects-get_elem? :
      (os : List KeyObject) (i : ℕ) (o : KeyObject)
      → AllObjects P os
      → get_elem? os i ≡ some o
      → P o
  AllObjects-get_elem? [] i o h e = cc
  AllObjects-get_elem? (x ∷ os) zero o h e = subst P (some-injective x o e) h.0
  AllObjects-get_elem? (x ∷ os) (suc i) o h e = AllObjects-get_elem? os i o h.1 e

  pub AllObjects-append :
      (os : List KeyObject) (o : KeyObject) → AllObjects P os → P o → AllObjects P (os ++ (o ∷ []))
  AllObjects-append [] o h p = (p, tt)
  AllObjects-append (x ∷ os) o h p = (h.0, AllObjects-append os o h.1 p)

  pub AllObjects-remove_at :
      (os : List KeyObject) (i : ℕ) → AllObjects P os → AllObjects P (remove_at os i)
  AllObjects-remove_at [] i h = tt
  AllObjects-remove_at (x ∷ os) zero h = h.1
  AllObjects-remove_at (x ∷ os) (suc i) h = (h.0, AllObjects-remove_at os i h.1)

  pub AllObjects-set :
      (os : List KeyObject) (i : ℕ) (o : KeyObject)
      → AllObjects P os
      → P o
      → AllObjects P (set os i o)
  AllObjects-set [] i o h p = tt
  AllObjects-set (x ∷ os) zero o h p = (p, h.1)
  AllObjects-set (x ∷ os) (suc i) o h p = (h.0, AllObjects-set os i o h.1 p)
