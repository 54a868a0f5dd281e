-- ===== src/Tests/Texts.antt =====
-- A unary code in the place of Base58.
use Prim.Native.Char.{code}
use Prim.Native.String.{String}
use native.Mathlib.Nat.{zero-add}
use cscrypto.Base.{
  true, ℕ, zero, suc, ◌+◌, ◌≡◌, refl, ap, ◌∙◌, Option, none, some, List, [], ◌∷◌, arith, ◌==◌,
  if◌then◌else◌,
}
use cscrypto.Texts.{has_no_space}
use cscrypto.Base58.{Base58}

-- A byte as so many ones and a two.
unfoldable pub ones : ℕ → String → String
ones zero text = text
ones (suc n) text = String.◌∷◌ "1" (ones n text)

unfoldable pub unary : List ℕ → String
unary [] = ""
unary (x ∷ xs) = ones x (String.◌∷◌ "2" (unary xs))

cons_to : ℕ → Option (List ℕ) → Option (List ℕ)
cons_to n none = none
cons_to n (some xs) = some (n ∷ xs)

pub decode_unary : ℕ → String → Option (List ℕ)
decode_unary n String.[] = if n == 0 then some [] else none
decode_unary n (String.◌∷◌ c text) =
    let more = decode_unary (suc n) text in
    let next = decode_unary 0 text in if code c == 49 then more else cons_to n next

decode_unary-ones :
    (n k : ℕ) (text : String) → decode_unary n (ones k text) ≡ decode_unary (n + k) text
unfolding decode_unary ones
decode_unary-ones n zero text = ap (λ (x : ℕ). decode_unary x text) (omega arith)
decode_unary-ones n (suc k) text =
    decode_unary-ones (suc n) k text ∙ ap (λ (x : ℕ). decode_unary x text) (omega arith)

pub decode-unary : (bytes : List ℕ) → decode_unary 0 (unary bytes) ≡ some bytes
unfolding decode_unary unary cons_to
decode-unary [] = refl
decode-unary (x ∷ xs) =
    decode_unary-ones 0 x (String.◌∷◌ "2" (unary xs))
    ∙ ap (λ (n : ℕ). decode_unary n (String.◌∷◌ "2" (unary xs))) (zero-add x)
    ∙ ap (cons_to x) (decode-unary xs)

ones-has_no_space :
    (n : ℕ) (text : String) → has_no_space text ≡ true → has_no_space (ones n text) ≡ true
unfolding ones
ones-has_no_space zero text h = h
ones-has_no_space (suc n) text h = ones-has_no_space n text h

pub unary-has_no_space : (bytes : List ℕ) → has_no_space (unary bytes) ≡ true
unfolding unary
unary-has_no_space [] = refl
unary-has_no_space (x ∷ xs) = ones-has_no_space x _ (unary-has_no_space xs)

pub decode_unary-nil : decode_unary 0 "" ≡ some []
unfolding decode_unary
decode_unary-nil = refl

abbrev pub simple_base58 : Base58
simple_base58 = record {
  encode = unary;
  decode = decode_unary 0;
  decode-encode = decode-unary;
  decode_empty = decode_unary-nil;
  encode-has_no_space = unary-has_no_space;
}
