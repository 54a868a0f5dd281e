-- ===== src/KeyGenWidget/Seed.antt =====
-- A phrase of known words as a text, read word by word.
use Prim.Native.String.{String}
use text.Mathlib.TextEquality.{eq_iff}
use text.Mathlib.TextPositions.{eq_refl}
use cscrypto.Base.{
  ℕ, zero, suc, ◌+◌, ◌<◌, ◌≡◌, ◌≢◌, refl, sym, ap, ◌∙◌, Bool, true, ◌&&◌, Option, none, some, List,
  [], ◌∷◌, arith, length, get_or,
}
use cscrypto.Dictionary.{Dictionary, IsDistinct}
use cscrypto.Dictionary.En.{en}
use cscrypto.Texts.{glue, glue_assoc, glue-nil, skip_spaces, extract, extract-word, is_word}
use cscrypto.Mnemonic.{WordList}
use cscrypto.Mnemonic.Recover.{phrase}
use cscrypto.KeyGenWidget.{find_word_in_dictionary, read_words, add_words}

find_word_in_dictionary-absent :
    (word : String) (d : Dictionary) (i : ℕ) (found : Option ℕ)
    → ((k : ℕ) → k < length d → get_or d k "" ≢ word)
    → find_word_in_dictionary word d i found ≡ found
unfolding find_word_in_dictionary
find_word_in_dictionary-absent word [] i found absent = refl
find_word_in_dictionary-absent word (entry ∷ d) i found absent = ground (
  arith,
  eq_iff word entry,
  absent 0 (omega arith),
  find_word_in_dictionary-absent word d (i + 1) found (λ k p. absent (suc k) (omega arith)),
)

-- The last match is the only one.
pub find_word_in_dictionary-get_or :
    (d : Dictionary) (k i : ℕ) (found : Option ℕ)
    → IsDistinct d
    → k < length d
    → find_word_in_dictionary (get_or d k "") d i found ≡ some (i + k)
unfolding find_word_in_dictionary
find_word_in_dictionary-get_or [] k i found dist p = absurd (omega arith)
find_word_in_dictionary-get_or (w ∷ d) zero i found dist p =
    rw (eq_refl w)
      (find_word_in_dictionary-absent w d (i + 1) (some i) others ∙ ap some (omega arith))
  where
    others : (k : ℕ) → k < length d → get_or d k "" ≢ w
    others k q e = omega (arith, dist (suc k) 0 (omega arith) (omega arith) e)
find_word_in_dictionary-get_or (w ∷ d) (suc k) i found dist p = ground (
  arith,
  eq_iff (get_or d k "") w,
  dist (suc k) 0 p (omega arith),
  find_word_in_dictionary-get_or d k (i + 1) found tail (omega arith),
)
  where
    tail : IsDistinct d
    tail a b q r e = omega (arith, dist (suc a) (suc b) (omega arith) (omega arith) e)

-- The words of a phrase, each with a space behind it.
abbrev pub seed_text : WordList → String
seed_text [] = ""
seed_text (word ∷ words) = glue word (String.◌∷◌ " " (seed_text words))

add_words-glue :
    (res : String) (words : WordList) → add_words res words ≡ glue res (seed_text words)
unfolding add_words
add_words-glue res [] = sym (glue-nil res)
add_words-glue res (word ∷ words) =
    add_words-glue (glue (glue res word) " ") words
    ∙ glue_assoc (glue res word) " " (seed_text words)
    ∙ glue_assoc res word (String.◌∷◌ " " (seed_text words))

pub add_words-seed_text : (words : WordList) → add_words "" words ≡ seed_text words
add_words-seed_text words = add_words-glue "" words

read_words-space :
    (d : Dictionary) (n : ℕ) (text : String)
    → read_words d n (String.◌∷◌ " " text) ≡ read_words d n text
unfolding read_words extract skip_spaces
read_words-space d zero text = refl
read_words-space d (suc n) text = refl

abbrev pub IsWords : Dictionary → Type 0
IsWords d = (k : ℕ) → k < length d → is_word (get_or d k "") ≡ true

module _ (d : Dictionary) (dist : IsDistinct d) (words : IsWords d) where
  -- The words of a phrase are read back, whatever stands behind them.
  pub read_words-phrase :
      (js : List ℕ)
      → ((k : ℕ) → k < length js → get_or js k 0 < length d)
      → read_words d (length js) (seed_text (phrase d js)) ≡ some (phrase d js)
  unfolding read_words
  read_words-phrase [] known = refl
  read_words-phrase (j ∷ js) known =
      let here : j < length d = known 0 (omega arith) in
      let rest = read_words-phrase js (λ k p. known (suc k) (omega arith)) in
      let word : extract (seed_text (phrase d (j ∷ js)))
          ≡ (get_or d j "", String.◌∷◌ " " (seed_text (phrase d js))) =
        extract-word (get_or d j "") (seed_text (phrase d js)) (words j here) in
      let found : find_word_in_dictionary (get_or d j "") d 0 none ≡ some j =
        find_word_in_dictionary-get_or d j 0 none dist here ∙ ap some (omega arith) in
      rw
        (
          read_words,
          word,
          found,
          word,
          read_words-space d (length js) (seed_text (phrase d js)),
          rest,
        )
        refl

all_words : Dictionary → Bool
all_words [] = true
all_words (word ∷ d) = is_word word && all_words d

all_words-IsWords : (d : Dictionary) → all_words d ≡ true → IsWords d
unfolding all_words
all_words-IsWords [] h k p = absurd (omega arith)
all_words-IsWords (word ∷ d) h zero p = ground arith
all_words-IsWords (word ∷ d) h (suc k) p = all_words-IsWords d (ground arith) k (omega arith)

en-all_words : all_words en ≡ true
unfolding all_words en
en-all_words = refl

pub en-IsWords : IsWords en
en-IsWords = all_words-IsWords en en-all_words
