-- ===== src/Mnemonic/Index.antt =====
-- `getIndex`: the 11 bits of a word as a number.
use native.Mathlib.Nat.{pow-suc}
use cscrypto.Base.{
  ℕ, zero, suc, ◌+◌, ◌-◌, ◌*◌, ◌/◌, ◌%◌, ◌^◌, ◌≤◌, ◌<◌, bit_or, ◌≡◌, refl, sym, ap, ap₂, fun_ext,
  ◌∙◌, Bool, true, false, ◌&&◌, List, arith, ◌==◌, to_ℕ, length, IsBytes, ok, passes, passes-at,
}
use cscrypto.Mnemonic.{get_index_loop, get_index, bits_word}
use cscrypto.Mnemonic.Bits.{digit, bit_at, get_bit-ok}

-- The number with the given bits, the lowest first.
unfoldable pub value : (ℕ → ℕ) → ℕ → ℕ
value f zero = 0
value f (suc n) = f 0 + 2 * value (λ k. f (suc k)) n

pub value-lt : (f : ℕ → ℕ) (n : ℕ) → ((k : ℕ) → f k < 2) → value f n < 2 ^ n
unfolding value
value-lt f zero h = omega arith
value-lt f (suc n) h = omega (arith, h 0, value-lt (λ k. f (suc k)) n (λ k. h (suc k)), pow-suc 2 n)

pub digit-value : (f : ℕ → ℕ) (n k : ℕ) → ((k : ℕ) → f k < 2) → k < n → digit (value f n) k ≡ f k
unfolding value digit
digit-value f zero k h p = absurd (omega arith)
digit-value f (suc n) zero h p = omega (arith, h 0)
digit-value f (suc n) (suc k) h p =
    let half : (f 0 + 2 * value (λ k. f (suc k)) n) / 2 ≡ value (λ k. f (suc k)) n =
      omega (arith, h 0) in
    ap (λ v. digit v k) half ∙ digit-value (λ k. f (suc k)) n k (λ k. h (suc k)) (omega arith)

-- The place of word `i` in the dictionary, as the bits give it.
abbrev pub word_value : List ℕ → ℕ → ℕ
word_value bits i = value (λ k. bit_at bits (i * bits_word + k)) bits_word

or_table :
    passes 11 (λ i.
      passes
        (2 ^ i)
        (λ r. (bit_or r (to_ℕ true * 2 ^ i) == r + 2 ^ i) && (bit_or r (to_ℕ false * 2 ^ i) == r)))
    ≡ true
unfolding passes
or_table = refl

or_lem : (i r : ℕ) (b : Bool) → i < 11 → r < 2 ^ i → bit_or r (to_ℕ b * 2 ^ i) ≡ r + to_ℕ b * 2 ^ i
or_lem i r true p q = ground (arith, passes-at (2 ^ i) _ r (passes-at 11 _ i or_table p) q)
or_lem i r false p q = ground (arith, passes-at (2 ^ i) _ r (passes-at 11 _ i or_table p) q)

or-lt : (i r : ℕ) (b : Bool) → r < 2 ^ i → r + to_ℕ b * 2 ^ i < 2 ^ suc i
or-lt i r true p = omega (arith, pow-suc 2 i)
or-lt i r false p = omega (arith, pow-suc 2 i)

regroup : (i r b v : ℕ) → r + b * 2 ^ i + 2 ^ suc i * v ≡ r + 2 ^ i * (b + 2 * v)
regroup i r b v = omega (arith, ap (λ (t : ℕ). t * v) (pow-suc 2 i))

rounds : (i : ℕ) → i * bits_word + bits_word - i * bits_word ≡ 11
rounds i = omega arith

module _ (bits : List ℕ) (h : IsBytes bits) where
  shift_bits :
      (pos left : ℕ)
      → value (λ k. bit_at bits (pos + suc k)) left ≡ value (λ k. bit_at bits (pos + 1 + k)) left
  shift_bits pos left =
      ap (λ (f : ℕ → ℕ). value f left) (fun_ext (λ k. ap (bit_at bits) (omega arith)))

  -- The loop at the word's bit `i`, with the lower bits in `r`.
  get_index_loop-ok :
      (left i word_num pos r : ℕ)
      → i + left ≤ 11
      → pos ≡ word_num * 11 + i
      → (pos + left + 7) / 8 ≤ length bits
      → r < 2 ^ i
      → get_index_loop bits left pos r ≡ ok (r + 2 ^ i * value (λ k. bit_at bits (pos + k)) left)
  unfolding get_index_loop value
  get_index_loop-ok zero i w pos r p e q s = ap ok (omega arith)
  get_index_loop-ok (suc left) i w pos r p e q s =
      let (b, run, bit) = get_bit-ok bits pos h (omega arith) in
      let place : pos % 11 ≡ i = omega arith in
      rw (run, place, or_lem i r b (omega arith) s)
        (get_index_loop-ok left (suc i) w (pos + 1) (r + to_ℕ b * 2 ^ i) (omega arith) (omega arith)
            (omega arith) (or-lt i r b s)
          ∙ ap ok (
              regroup i r (to_ℕ b) (value (λ k. bit_at bits (pos + 1 + k)) left)
              ∙ ap₂ (λ (x y : ℕ). r + 2 ^ i * (x + 2 * y)) (bit ∙ ap (bit_at bits) (omega arith))
                  (sym (shift_bits pos left))))

  -- `getIndex` stays in the buffer and returns the word's 11 bits.
  pub get_index-ok :
      (i : ℕ) → (i * 11 + 18) / 8 ≤ length bits → get_index bits i ≡ ok (word_value bits i)
  unfolding get_index
  get_index-ok i q = rw (rounds i) (
      get_index_loop-ok 11 0 i (i * 11) 0 (omega arith) (omega arith) (omega arith) (omega arith)
      ∙ ap ok (omega arith))
