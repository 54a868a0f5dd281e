-- ===== src/Dictionary.antt =====
-- include/cscrypto/dictionary.hpp: a dictionary is an array of words.
pub mod En
pub mod Order
use Prim.Native.String.{String}
use cscrypto.Base.{ℕ, ◌≡◌, ◌<◌, List, length, get_or}

abbrev pub dictionary_size : ℕ
dictionary_size = 2048

abbrev pub Dictionary : Type 0
Dictionary = List String

-- No word stands at two places.
abbrev pub IsDistinct : Dictionary → Type 0
IsDistinct d = (i j : ℕ) → i < length d → j < length d → get_or d i "" ≡ get_or d j "" → i ≡ j

-- What the code relies on: the array is full and its words differ.
pub record IsDictionary (d : Dictionary) : Type 0 where
  pub full : length d ≡ dictionary_size
  pub distinct : IsDistinct d
