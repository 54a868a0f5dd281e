-- ===== src/KeyListModel.antt =====
-- qt/src/keylistmodel.cpp: the pairs of keys that the widgets share.
use Prim.Native.String.{String}
use cscrypto.Base.{ℕ, Option, none, some, List, [], ◌∷◌, ◌++◌, length, get_elem?, set}
use cscrypto.Base58.{Base58}
use cscrypto.Sodium.Memory.{Region}

-- `none` is the private key of `KeyPair()`, whose region is NULL.
pub record KeyPair : Type 0 where
  pub public_key : List ℕ
  pub private_key : Option Region

abbrev pub key_pair : List ℕ → Option Region → KeyPair
key_pair pk sk = record { public_key = pk; private_key = sk }

abbrev pub KeyListModel : Type 0
KeyListModel = List KeyPair

-- The row of a `QModelIndex`; `none` is an invalid index.
abbrev pub ModelIndex : Type 0
ModelIndex = Option ℕ

unfoldable pub row_count : KeyListModel → ℕ
row_count keys = length keys

-- `data` in the role DisplayRole.
unfoldable pub data_at : Base58 → KeyListModel → ModelIndex → Option String
data_at b keys none = none
data_at b keys (some row) = elim (get_elem? keys row) [
  | none ↦ none
  | some pair ↦ some (b.encode pair.public_key)
]

unfoldable pub add_key_pair : KeyPair → KeyListModel → KeyListModel
add_key_pair pair keys = keys ++ (pair ∷ [])

-- `garbage` is what the uninitialised public key of `KeyPair()` holds.
unfoldable pub get_key_pair : List ℕ → KeyListModel → ModelIndex → KeyPair
get_key_pair garbage keys none = key_pair garbage none
get_key_pair garbage keys (some row) = elim (get_elem? keys row) [
  | none ↦ key_pair garbage none
  | some pair ↦ pair
]

-- The list with a private key as a function left it.
unfoldable pub put_back : ModelIndex → KeyPair → KeyListModel → KeyListModel
put_back none pair keys = keys
put_back (some row) pair keys = set keys row pair
