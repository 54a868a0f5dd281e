-- ===== src/SignWidget/Rows.antt =====
-- The list of keys: rows that exist, and private keys that are there.
use mathlib.Core.Option.{some-injective}
use cscrypto.Base.{
  ℕ, zero, suc, ◌<◌, ◌≡◌, refl, ap, subst, ◌∙◌, Bool, true, false, Option, none, some, List, [],
  ◌∷◌, ◌++◌, arith, length, set, get_or, get_elem?,
}
use cscrypto.Sodium.Memory.{Region, region}
use cscrypto.KeyListModel.{
  put_back, KeyPair, key_pair, KeyListModel, ModelIndex, add_key_pair, get_key_pair,
}

-- No key of the list is without a private key.
abbrev pub AllPresent : KeyListModel → Type 0
AllPresent [] = Unit {0}
AllPresent (pair ∷ keys) = ((r : Region) × (pair.private_key ≡ some r)) × AllPresent keys

abbrev pub IsRow : KeyListModel → ModelIndex → Type 0
IsRow keys index =
    (row : ℕ) × (index ≡ some row) × (pair : KeyPair) × (get_elem? keys row ≡ some pair)

pub AllPresent-get_elem? :
    (keys : KeyListModel) (row : ℕ) (pair : KeyPair)
    → AllPresent keys
    → get_elem? keys row ≡ some pair
    → (r : Region) × (pair.private_key ≡ some r)
AllPresent-get_elem? [] row pair all e = cc
AllPresent-get_elem? (x ∷ keys) zero pair all e =
    subst (λ (p : KeyPair). (r : Region) × (p.private_key ≡ some r)) (some-injective x pair e) all.0
AllPresent-get_elem? (x ∷ keys) (suc row) pair all e = AllPresent-get_elem? keys row pair all.1 e

pub AllPresent-add_key_pair :
    (keys : KeyListModel) (pk : List ℕ) (r : Region)
    → AllPresent keys
    → AllPresent (add_key_pair (key_pair pk (some r)) keys)
unfolding add_key_pair
AllPresent-add_key_pair [] pk r all = ((r, refl), tt)
AllPresent-add_key_pair (x ∷ keys) pk r all = (all.0, AllPresent-add_key_pair keys pk r all.1)

pub AllPresent-set :
    (keys : KeyListModel) (row : ℕ) (pk : List ℕ) (r : Region)
    → AllPresent keys
    → AllPresent (set keys row (key_pair pk (some r)))
AllPresent-set [] row pk r all = tt
AllPresent-set (x ∷ keys) zero pk r all = ((r, refl), all.1)
AllPresent-set (x ∷ keys) (suc row) pk r all = (all.0, AllPresent-set keys row pk r all.1)

pub get_elem?-append :
    (keys more : KeyListModel) (row : ℕ) (pair : KeyPair)
    → get_elem? keys row ≡ some pair
    → get_elem? (keys ++ more) row ≡ some pair
get_elem?-append [] more row pair e = cc
get_elem?-append (x ∷ keys) more zero pair e = e
get_elem?-append (x ∷ keys) more (suc row) pair e = get_elem?-append keys more row pair e

pub IsRow-add_key_pair :
    (keys : KeyListModel) (index : ModelIndex) (pair : KeyPair)
    → IsRow keys index
    → IsRow (add_key_pair pair keys) index
unfolding add_key_pair
IsRow-add_key_pair keys index pair (row, at, there, e) =
    (row, at, there, get_elem?-append keys (pair ∷ []) row there e)

pub get_elem?-set :
    (keys : KeyListModel) (row : ℕ) (pair new : KeyPair)
    → get_elem? keys row ≡ some pair
    → get_elem? (set keys row new) row ≡ some new
get_elem?-set [] row pair new e = cc
get_elem?-set (x ∷ keys) zero pair new e = refl
get_elem?-set (x ∷ keys) (suc row) pair new e = get_elem?-set keys row pair new e

pub get_elem?-lt :
    (keys : KeyListModel) (row : ℕ)
    → row < length keys
    → (pair : KeyPair) × (get_elem? keys row ≡ some pair)
get_elem?-lt [] row h = absurd (omega arith)
get_elem?-lt (x ∷ keys) zero h = (x, refl)
get_elem?-lt (x ∷ keys) (suc row) h = get_elem?-lt keys row (omega arith)

-- A new Ok button, and a dialog that closes.
pub get_or-new :
    (oks : List Bool) (i : ℕ)
    → get_or (oks ++ (false ∷ [])) i false ≡ true
    → get_or oks i false ≡ true
get_or-new [] zero e = e
get_or-new [] (suc i) e = e
get_or-new (x ∷ oks) zero e = e
get_or-new (x ∷ oks) (suc i) e = get_or-new oks i e

pub get_or-closed :
    (oks : List Bool) (i j : ℕ)
    → get_or (set oks i false) j false ≡ true
    → get_or oks j false ≡ true
get_or-closed [] i j e = e
get_or-closed (x ∷ oks) zero zero e = cc
get_or-closed (x ∷ oks) zero (suc j) e = e
get_or-closed (x ∷ oks) (suc i) zero e = e
get_or-closed (x ∷ oks) (suc i) (suc j) e = get_or-closed oks i j e

pub get_key_pair-at :
    (garbage : List ℕ) (keys : KeyListModel) (index : ModelIndex) (row : ℕ) (pair : KeyPair)
    (r : Region)
    → index ≡ some row
    → get_elem? keys row ≡ some pair
    → pair.private_key ≡ some r
    → get_key_pair garbage keys index ≡ key_pair pair.public_key (some (region r.bytes r.access))
unfolding get_key_pair
get_key_pair-at garbage keys index row pair r at e there =
    rw (at, get_key_pair, e) (ap (λ (sk : Option Region). key_pair pair.public_key sk) there)

pub AllPresent-put_back :
    (index : ModelIndex) (pk : List ℕ) (r : Region) (keys : KeyListModel)
    → AllPresent keys
    → AllPresent (put_back index (key_pair pk (some r)) keys)
unfolding put_back
AllPresent-put_back none pk r keys all = all
AllPresent-put_back (some row) pk r keys all = AllPresent-set keys row pk r all

pub IsRow-put_back :
    (index : ModelIndex) (new : KeyPair) (keys : KeyListModel)
    → IsRow keys index
    → IsRow (put_back index new keys) index
unfolding put_back
IsRow-put_back none new keys (row, at, pair, e) = absurd cc
IsRow-put_back (some i) new keys (row, at, pair, e) =
    let at_i : get_elem? keys i ≡ some pair = ap (get_elem? keys) (some-injective i row at) ∙ e in
    (i, refl, new, get_elem?-set keys i pair new at_i)
