-- ===== src/Mnemonic/Words.antt =====
-- The loops over the dictionary: from places to words, and the search for a word.
use Prim.Native.String.{String}
use text.Mathlib.TextEquality.{eq_iff}
use text.Mathlib.TextPositions.{eq_refl}
use cscrypto.Base.{
  ℕ, zero, suc, ◌+◌, ◌*◌, ◌≤◌, ◌<◌, ◌≡◌, refl, ap, ◌≢◌, none, some, List, [], ◌∷◌, arith, length,
  get_or, get_elem?-eq-get_or, IsBytes, ok,
}
use cscrypto.Dictionary.{Dictionary, IsDistinct, dictionary_size}
use cscrypto.Mnemonic.{words_loop, find_word, bits_word, WordList}
use cscrypto.Mnemonic.Bits.{bit_at, digit-lt}
use cscrypto.Mnemonic.Index.{value-lt, word_value, get_index-ok}

-- The words at the places that the bits give, from word `i` on.
abbrev pub words_from : Dictionary → List ℕ → ℕ → ℕ → WordList
words_from d bits zero i = []
words_from d bits (suc left) i = get_or d (word_value bits i) "" ∷ words_from d bits left (i + 1)

pub word_value-lt : (bits : List ℕ) (i : ℕ) → word_value bits i < 2048
word_value-lt bits i = value-lt (λ k. bit_at bits (i * bits_word + k)) 11 (λ k. digit-lt _ _)

pub words_loop-ok :
    (d : Dictionary) (bits : List ℕ) (left i : ℕ)
    → length d ≡ dictionary_size
    → length bits ≡ 33
    → IsBytes bits
    → i + left ≤ 24
    → words_loop d bits left i ≡ ok (words_from d bits left i)
unfolding words_loop
words_loop-ok d bits zero i full l h p = refl
words_loop-ok d bits (suc left) i full l h p = rw (
  get_index-ok bits h i (omega arith),
  get_elem?-eq-get_or d (word_value bits i) "" (omega (arith, word_value-lt bits i)),
  words_loop-ok d bits left (i + 1) full l h (omega arith),
)

-- The search stops at the one place of a word.
pub find_word-get_or :
    (d : Dictionary) (k j : ℕ)
    → IsDistinct d
    → k < length d
    → find_word (get_or d k "") d j ≡ some (j + k)
unfolding find_word
find_word-get_or [] k j dist p = absurd (omega arith)
find_word-get_or (w ∷ d) zero j dist p = rw (eq_refl w) (ap some (omega arith))
find_word-get_or (w ∷ d) (suc k) j dist p = ground (
  arith,
  eq_iff (get_or d k "") w,
  dist (suc k) 0 p (omega arith),
  find_word-get_or d k (j + 1) tail (omega arith),
)
  where
    tail : IsDistinct d
    tail a b q r e = omega (arith, dist (suc a) (suc b) (omega arith) (omega arith) e)

-- A word that stands nowhere is not found.
pub find_word-none :
    (w : String) (d : Dictionary) (j : ℕ)
    → ((k : ℕ) → k < length d → get_or d k "" ≢ w)
    → find_word w d j ≡ none
unfolding find_word
find_word-none w [] j absent = refl
find_word-none w (entry ∷ d) j absent = ground (
  arith,
  eq_iff w entry,
  absent 0 (omega arith),
  find_word-none w d (j + 1) (λ k p. absent (suc k) (omega arith)),
)
