-- ===== src/Mnemonic/Bits.antt =====
-- `getBit` and `putBit` as functions on the bits of a byte list.
use cscrypto.Base.{
  ℕ, zero, suc, ◌+◌, ◌*◌, ◌/◌, ◌%◌, ◌^◌, ◌<◌, max, bit_and, bit_or, ◌≡◌, refl, Bool, true, false,
  List, arith, ltb, ◌==◌, ==_iff, to_ℕ, if◌then◌else◌, length, get_or, set, length-set,
  get_or-set_self, get_or-set_ne, get_or_ext, get_elem?-eq-get_or, IsBytes, ok, passes, passes-at,
}
use cscrypto.Mnemonic.{get_bit, put_bit}

-- Bit `k` of a number.
unfoldable pub digit : ℕ → ℕ → ℕ
digit n zero = n % 2
digit n (suc k) = digit (n / 2) k

-- Bit `pos` of a byte list, the lowest bit of each byte first.
abbrev pub bit_at : List ℕ → ℕ → ℕ
bit_at bits pos = digit (get_or bits (pos / 8) 0) (pos % 8)

pub digit-lt : (n k : ℕ) → digit n k < 2
unfolding digit
digit-lt n zero = omega arith
digit-lt n (suc k) = digit-lt (n / 2) k

pub digit-zero : (k : ℕ) → digit 0 k ≡ 0
unfolding digit
digit-zero zero = refl
digit-zero (suc k) = digit-zero k

-- What `getBit` computes at bit `k` of the byte `x`.
abbrev tested : ℕ → ℕ → Bool
tested x k = ltb 0 (bit_and x (2 ^ k))

tested_table : passes 256 (λ x. passes 8 (λ k. to_ℕ (tested x k) == digit x k)) ≡ true
unfolding passes digit
tested_table = refl

tested_lem : (x k : ℕ) → x < 256 → k < 8 → to_ℕ (tested x k) ≡ digit x k
tested_lem x k p q = (==_iff _ _).0 (passes-at 8 _ k (passes-at 256 _ x tested_table p) q)

-- What `putBit` stores for the bit `b` at place `k` of the byte `x`.
abbrev stored : ℕ → ℕ → Bool → ℕ
stored x k b = bit_or x (to_ℕ b * 2 ^ k) % 256

abbrev stored_digit : ℕ → ℕ → Bool → ℕ → Bool
stored_digit x k b j =
    digit (stored x k b) j == (if j == k then max (digit x j) (to_ℕ b) else digit x j)

stored_table_true : passes 256 (λ x. passes 8 (λ k. passes 8 (stored_digit x k true))) ≡ true
unfolding passes digit
stored_table_true = refl

stored_table_false : passes 256 (λ x. passes 8 (λ k. passes 8 (stored_digit x k false))) ≡ true
unfolding passes digit
stored_table_false = refl

stored_lem :
    (x k : ℕ) (b : Bool) (j : ℕ)
    → x < 256
    → k < 8
    → j < 8
    → digit (stored x k b) j ≡ (if j == k then max (digit x j) (to_ℕ b) else digit x j)
stored_lem x k true j p q r =
    (==_iff _ _).0 (passes-at 8 _ j (passes-at 8 _ k (passes-at 256 _ x stored_table_true p) q) r)
stored_lem x k false j p q r =
    (==_iff _ _).0 (passes-at 8 _ j (passes-at 8 _ k (passes-at 256 _ x stored_table_false p) q) r)

-- Inside the buffer `getBit` reads the bit.
pub get_bit-ok :
    (bits : List ℕ) (pos : ℕ)
    → IsBytes bits
    → pos / 8 < length bits
    → (b : Bool) × (get_bit bits pos ≡ ok b) × (to_ℕ b ≡ bit_at bits pos)
unfolding get_bit
get_bit-ok bits pos h p = (
  tested (get_or bits (pos / 8) 0) (pos % 8),
  rw (get_elem?-eq-get_or bits (pos / 8) 0 p),
  tested_lem _ _ (h (pos / 8)) (omega arith),
)

-- What a store of bit `pos` does to the buffer.
pub record IsPut (bits : List ℕ) (pos : ℕ) (b : Bool) (out : List ℕ) : Type 0 where
  pub same_length : length out ≡ length bits
  pub is_bytes : IsBytes out
  pub bit :
      (q : ℕ) → bit_at out q ≡ (if q == pos then max (bit_at bits q) (to_ℕ b) else bit_at bits q)

module _ (bits : List ℕ) (pos : ℕ) (b : Bool) (h : IsBytes bits) (p : pos / 8 < length bits) where
  abbrev put_value : ℕ
  put_value = stored (get_or bits (pos / 8) 0) (pos % 8) b

  abbrev put_out : List ℕ
  put_out = set bits (pos / 8) put_value

  put-IsBytes : IsBytes put_out
  put-IsBytes i = ground (
    arith,
    h i,
    get_or-set_self bits (pos / 8) put_value 0 p,
    get_or-set_ne bits (pos / 8) i put_value 0,
  )

  put_bit_at :
      (q : ℕ)
      → bit_at put_out q ≡ (if q == pos then max (bit_at bits q) (to_ℕ b) else bit_at bits q)
  put_bit_at q = ground (
    arith,
    h (pos / 8),
    get_or-set_self bits (pos / 8) put_value 0 p,
    get_or-set_ne bits (pos / 8) (q / 8) put_value 0,
    stored_lem (get_or bits (pos / 8) 0) (pos % 8) b (q % 8),
  )

  -- Inside the buffer `putBit` sets the bit, if it is to be set, and changes no other.
  pub put_bit-ok : (out : List ℕ) × (put_bit bits pos b ≡ ok out) × IsPut bits pos b out
  unfolding put_bit
  put_bit-ok = (
    put_out,
    rw (get_elem?-eq-get_or bits (pos / 8) 0 p),
    record {
      same_length = length-set bits (pos / 8) put_value;
      is_bytes = put-IsBytes;
      bit = put_bit_at;
    },
  )

pub eq_of_digits : (x y : ℕ) → x < 256 → y < 256 → ((k : ℕ) → k < 8 → digit x k ≡ digit y k) → x ≡ y
unfolding digit
eq_of_digits x y p q h = omega (
  arith,
  h 0 (omega arith),
  h 1 (omega arith),
  h 2 (omega arith),
  h 3 (omega arith),
  h 4 (omega arith),
  h 5 (omega arith),
  h 6 (omega arith),
  h 7 (omega arith),
)

-- Buffers of one length with the same bits are equal.
pub bits_ext :
    (xs ys : List ℕ)
    → length xs ≡ length ys
    → IsBytes xs
    → IsBytes ys
    → ((q : ℕ) → q < 8 * length xs → bit_at xs q ≡ bit_at ys q)
    → xs ≡ ys
bits_ext xs ys e hx hy h =
    get_or_ext 0 xs ys e λ i p. eq_of_digits _ _ (hx i) (hy i) λ k r. ground (arith, h (8 * i + k))
