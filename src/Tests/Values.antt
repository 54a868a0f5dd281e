-- ===== src/Tests/Values.antt =====
-- Values of the interfaces, and byte strings, that the tests share.
use cscrypto.Base.{
  ℕ, zero, suc, ◌+◌, ◌*◌, ◌%◌, ◌≤◌, ◌<◌, ◌≡◌, Bool, true, ◌&&◌, not, ◌≢◌, List, [], ◌∷◌, arith, ltb,
  leb, le→leb, if◌then◌else◌, length, length-replicate, replicate, get_or, IsBytes, Option, none,
  some,
}
use Prim.Native.String.{String}
use text.Mathlib.Text.{◌==◌ as str_eq}
use text.Mathlib.TextEquality.{eq_iff}
use cscrypto.Dictionary.{Dictionary}
use cscrypto.Blake2.{Blake2}

unfoldable pub all_bytes : List ℕ → Bool
all_bytes [] = true
all_bytes (x ∷ xs) = ltb x 256 && all_bytes xs

pub all_bytes-IsBytes : (xs : List ℕ) → all_bytes xs ≡ true → IsBytes xs
unfolding all_bytes
all_bytes-IsBytes [] h i = omega arith
all_bytes-IsBytes (x ∷ xs) h zero = ground arith
all_bytes-IsBytes (x ∷ xs) h (suc i) = all_bytes-IsBytes xs (ground arith) i

-- A checksum in the place of the hash: every byte is the sum of the message and the key.
unfoldable pub mix : List ℕ → ℕ
mix [] = 0
mix (x ∷ xs) = (x + 2 * mix xs) % 256

mix-lt : (xs : List ℕ) → mix xs < 256
unfolding mix
mix-lt [] = omega arith
mix-lt (x ∷ xs) = omega arith

IsBytes-replicate : (n x : ℕ) → x < 256 → IsBytes (replicate n x)
IsBytes-replicate zero x h i = omega arith
IsBytes-replicate (suc n) x h zero = h
IsBytes-replicate (suc n) x h (suc i) = IsBytes-replicate n x h i

unfoldable pub mixing : List ℕ → List ℕ → Option (List ℕ)
unfolding mix
mixing message key =
    if leb (length key) 32 then some (replicate 32 ((mix message + mix key) % 256)) else none

pub mixing_lem :
    (message key : List ℕ)
    → length key ≤ 32
    → (h : List ℕ) × (mixing message key ≡ some h) × (length h ≡ 32) × IsBytes h
unfolding mixing
mixing_lem message key p = (
  replicate 32 ((mix message + mix key) % 256),
  rw (le→leb (length key) 32 p),
  length-replicate 32 ((mix message + mix key) % 256),
  IsBytes-replicate 32 ((mix message + mix key) % 256) (omega arith),
)

abbrev pub simple_blake2 : Blake2
simple_blake2 = record { blake2s = mixing; blake2s_lem = mixing_lem }

-- A seed, and what a new region and an uninitialised array may hold.
abbrev pub seed_bytes : List ℕ
seed_bytes =
    200 ∷ 1 ∷ 17 ∷ 255 ∷ 0 ∷ 9 ∷ 91 ∷ 128 ∷ 3 ∷ 2 ∷ 1 ∷ 0 ∷ 77 ∷ 78 ∷ 79 ∷ 80 ∷ 11 ∷ 22 ∷ 33 ∷ 44
    ∷ 55 ∷ 66 ∷ 77 ∷ 88 ∷ 99 ∷ 110 ∷ 121 ∷ 132 ∷ 143 ∷ 154 ∷ 165 ∷ 176 ∷ []

abbrev pub fresh_bytes : List ℕ
fresh_bytes = replicate 32 219

abbrev pub scratch_bytes : List ℕ
scratch_bytes = replicate 33 219

-- No word of the dictionary is `w`.
unfoldable pub is_absent : String → Dictionary → Bool
is_absent w [] = true
is_absent w (entry ∷ d) = not (str_eq entry w) && is_absent w d

pub is_absent_sound :
    (w : String) (d : Dictionary)
    → is_absent w d ≡ true
    → (k : ℕ) → k < length d
    → get_or d k "" ≢ w
unfolding is_absent
is_absent_sound w [] h k p = absurd (omega arith)
is_absent_sound w (entry ∷ d) h zero p = ground (arith, eq_iff entry w)
is_absent_sound w (entry ∷ d) h (suc k) p = is_absent_sound w d (ground arith) k (omega arith)
