-- ===== src/Texts.antt =====
-- What `std::istringstream` and `QTextStream` read from a text. Texts hold no NUL and only `\n` ends a
-- line.
use Prim.Native.Char.{code}
use Prim.Native.String.{String}
use cscrypto.Base.{
  ℕ, ◌≡◌, refl, ap, Bool, true, false, not, ◌&&◌, ◌||◌, arith, ◌==◌, ltb, if◌then◌else◌,
}

-- `QString::operator+`, by clauses that compute at any text.
abbrev pub glue : String → String → String
glue String.[] more = more
glue (String.◌∷◌ c text) more = String.◌∷◌ c (glue text more)

pub glue_assoc : (a b c : String) → glue (glue a b) c ≡ glue a (glue b c)
glue_assoc String.[] b c = refl
glue_assoc (String.◌∷◌ x a) b c = ap (String.◌∷◌ x) (glue_assoc a b c)

pub glue-nil : (a : String) → glue a "" ≡ a
glue-nil String.[] = refl
glue-nil (String.◌∷◌ x a) = ap (String.◌∷◌ x) (glue-nil a)

-- `isspace` in the locale "C".
abbrev pub is_space : ℕ → Bool
is_space c = c == 32 || (ltb 8 c && ltb c 14)

unfoldable pub skip_spaces : String → String
skip_spaces String.[] = ""
skip_spaces (String.◌∷◌ c text) =
    let rest = skip_spaces text in if is_space (code c) then rest else String.◌∷◌ c text

-- The characters up to the next space, and the rest.
unfoldable pub read_word : String → String × String
read_word String.[] = ("", "")
read_word (String.◌∷◌ c text) =
    let (word, rest) = read_word text in
    if is_space (code c) then ("", String.◌∷◌ c text) else (String.◌∷◌ c word, rest)

-- `ss >> word`: at the end of the text `word` is empty.
unfoldable pub extract : String → String × String
extract text = read_word (skip_spaces text)

-- `QTextStream::readLine`.
unfoldable pub read_line : String → String × String
read_line String.[] = ("", "")
read_line (String.◌∷◌ c text) =
    let (line, rest) = read_line text in
    if code c == 10 then ("", text) else (String.◌∷◌ c line, rest)

abbrev pub has_no_space : String → Bool
has_no_space String.[] = true
has_no_space (String.◌∷◌ c text) = not (is_space (code c)) && has_no_space text

-- One word: not empty, and without spaces.
abbrev pub is_word : String → Bool
is_word String.[] = false
is_word (String.◌∷◌ c text) = not (is_space (code c)) && has_no_space text

read_word-glue :
    (word rest : String)
    → has_no_space word ≡ true
    → read_word (glue word (String.◌∷◌ " " rest)) ≡ (word, String.◌∷◌ " " rest)
unfolding read_word
read_word-glue String.[] rest h = refl
read_word-glue (String.◌∷◌ c word) rest h = ground (arith, read_word-glue word rest)

pub extract-word :
    (word rest : String)
    → is_word word ≡ true
    → extract (glue word (String.◌∷◌ " " rest)) ≡ (word, String.◌∷◌ " " rest)
unfolding extract read_word skip_spaces
extract-word String.[] rest h = cc
extract-word (String.◌∷◌ c word) rest h = ground (arith, read_word-glue word rest)

pub extract-space : (text : String) → extract (String.◌∷◌ " " text) ≡ extract text
unfolding extract skip_spaces
extract-space text = refl

pub read_line-glue :
    (line rest : String)
    → has_no_space line ≡ true
    → read_line (glue line (String.◌∷◌ "\n" rest)) ≡ (line, rest)
unfolding read_line
read_line-glue String.[] rest h = refl
read_line-glue (String.◌∷◌ c line) rest h = ground (arith, read_line-glue line rest)

pub read_line-all : (line : String) → has_no_space line ≡ true → read_line line ≡ (line, "")
unfolding read_line
read_line-all String.[] h = refl
read_line-all (String.◌∷◌ c line) h = ground (arith, read_line-all line)
