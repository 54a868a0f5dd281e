-- ===== src/Dictionary/Order.antt =====
-- The order of the words of a dictionary, and that the English one is sorted and has no word twice.
use Prim.Native.Char.{code}
use Prim.Native.String.{String}
use cscrypto.Base.{
  ℕ, zero, suc, ◌+◌, ◌*◌, ◌<◌, ◌≡◌, refl, ap, Bool, true, ◌&&◌, [], ◌∷◌, arith, ltb, length, get_or,
}
use cscrypto.Dictionary.{Dictionary, IsDistinct, IsDictionary}
use cscrypto.Dictionary.En.{en}

-- The first `n` bytes of a text as one number, the first byte in the highest place and missing
-- bytes read as the terminating 0: the order of such numbers is the order of `strcmp`.
unfoldable pub key_from : ℕ → ℕ → String → ℕ
key_from zero acc s = acc
key_from (suc n) acc String.[] = key_from n (acc * 256) String.[]
key_from (suc n) acc (String.◌∷◌ c s) = key_from n (acc * 256 + code c) s

unfoldable pub key : String → ℕ
unfolding key_from
key s = key_from 8 0 s

unfoldable pub ascending_from : ℕ → Dictionary → Bool
ascending_from k [] = true
ascending_from k (w ∷ ws) = ltb k (key w) && ascending_from (key w) ws

ascending_from-lt :
    (k : ℕ) (d : Dictionary) (i : ℕ)
    → ascending_from k d ≡ true
    → i < length d
    → k < key (get_or d i "")
unfolding ascending_from
ascending_from-lt k [] i h p = absurd (omega arith)
ascending_from-lt k (w ∷ ws) zero h p = ground arith
ascending_from-lt k (w ∷ ws) (suc i) h p = ground (arith, ascending_from-lt (key w) ws i)

key_mono :
    (k : ℕ) (d : Dictionary) (i j : ℕ)
    → ascending_from k d ≡ true
    → i < j
    → j < length d
    → key (get_or d i "") < key (get_or d j "")
unfolding ascending_from
key_mono k [] i j h p q = absurd (omega arith)
key_mono k (w ∷ ws) i zero h p q = absurd (omega arith)
key_mono k (w ∷ ws) zero (suc j) h p q = ground (arith, ascending_from-lt (key w) ws j)
key_mono k (w ∷ ws) (suc i) (suc j) h p q = ground (arith, key_mono (key w) ws i j)

pub ascending-IsDistinct : (d : Dictionary) → ascending_from 0 d ≡ true → IsDistinct d
ascending-IsDistinct d h i j p q e =
    ground (arith, ap key e, key_mono 0 d i j h, key_mono 0 d j i h)

en-ascending : ascending_from 0 en ≡ true
unfolding ascending_from key en
en-ascending = refl

en-length : length en ≡ 2048
unfolding en
en-length = refl

-- The English dictionary has 2048 words, and no word stands at two places.
pub en-IsDictionary : IsDictionary en
en-IsDictionary = record { full = en-length; distinct = ascending-IsDistinct en en-ascending }
