-- ===== src/Mnemonic/Put.antt =====
-- `putIndex`: the 11 bits of a word's place stored into the seed.
use cscrypto.Base.{
  ℕ, zero, suc, ◌+◌, ◌-◌, ◌*◌, ◌/◌, ◌%◌, ◌≤◌, ◌<◌, max, ◌≡◌, refl, sym, ap, ap₂, ◌∙◌, inl, inr,
  Bool, ◌&&◌, List, ◌∷◌, arith, ltb, leb, to_ℕ, if◌then◌else◌, Bool-cases, length, get_or, IsBytes,
  ok,
}
use cscrypto.Mnemonic.{size_bytes, put_index_loop, put_index}
use cscrypto.Mnemonic.Bits.{digit, bit_at, get_bit-ok, IsPut, put_bit-ok}

digit-mod : (n i : ℕ) → i < 8 → digit (n % 256) i ≡ digit n i
unfolding digit
digit-mod n zero h = omega arith
digit-mod n (suc zero) h = omega arith
digit-mod n (suc (suc zero)) h = omega arith
digit-mod n (suc (suc (suc zero))) h = omega arith
digit-mod n (suc (suc (suc (suc zero)))) h = omega arith
digit-mod n (suc (suc (suc (suc (suc zero))))) h = omega arith
digit-mod n (suc (suc (suc (suc (suc (suc zero)))))) h = omega arith
digit-mod n (suc (suc (suc (suc (suc (suc (suc zero))))))) h = omega arith
digit-mod n (suc (suc (suc (suc (suc (suc (suc (suc i)))))))) h = absurd (omega arith)

digit-div :
    (n i : ℕ) → digit n (suc (suc (suc (suc (suc (suc (suc (suc i)))))))) ≡ digit (n / 256) i
unfolding digit
digit-div n i = ap (λ (m : ℕ). digit m i) (omega arith)

size_bytes-length : (k n : ℕ) → length (size_bytes k n) ≡ k
unfolding size_bytes
size_bytes-length zero n = refl
size_bytes-length (suc k) n = ap suc (size_bytes-length k (n / 256))

size_bytes-IsBytes : (k n : ℕ) → IsBytes (size_bytes k n)
unfolding size_bytes
size_bytes-IsBytes zero n i = omega arith
size_bytes-IsBytes (suc k) n zero = omega arith
size_bytes-IsBytes (suc k) n (suc i) = size_bytes-IsBytes k (n / 256) i

-- The bits of a number's bytes in memory are its bits.
pub size_bytes-digit : (k n i : ℕ) → i < 8 * k → bit_at (size_bytes k n) i ≡ digit n i
unfolding size_bytes
size_bytes-digit zero n i h = absurd (omega arith)
size_bytes-digit (suc k) n i h = elim (Bool-cases (ltb i 8)) [
  | inl low ↦
      ap₂ (λ (a b : ℕ). digit (get_or ((n % 256) ∷ size_bytes k (n / 256)) a 0) b)
        (let e : i / 8 ≡ 0 = ground arith in e) (let e : i % 8 ≡ i = ground arith in e)
      ∙ digit-mod n i (ground arith)
  | inr high ↦
      ap₂ (λ (a b : ℕ). digit (get_or ((n % 256) ∷ size_bytes k (n / 256)) a 0) b)
        (let e : i / 8 ≡ suc ((i - 8) / 8) = ground arith in e)
        (let e : i % 8 ≡ (i - 8) % 8 = ground arith in e)
      ∙ size_bytes-digit k (n / 256) (i - 8) (ground arith)
      ∙ sym (digit-div n (i - 8))
      ∙ ap (digit n) (ground arith)
]

-- What a store of the number `index` as word `w` from its bit `i` on does to the seed.
pub record IsPutWord (bits : List ℕ) (w index i : ℕ) (out : List ℕ) : Type 0 where
  pub same_length : length out ≡ length bits
  pub is_bytes : IsBytes out
  pub bit :
      (q : ℕ)
      → q < 256
      → bit_at out q ≡ (
          if leb (w * 11 + i) q && ltb q (w * 11 + 11)
          then max (bit_at bits q) (digit index (q - w * 11))
          else bit_at bits q)

module _ (w index : ℕ) where
  IsPutWord-cons :
      (bits : List ℕ) (i : ℕ) (b : Bool) (mid out : List ℕ)
      → to_ℕ b ≡ digit index i
      → i < 11
      → IsPut bits (w * 11 + i) b mid
      → IsPutWord mid w index (i + 1) out
      → IsPutWord bits w index i out
  IsPutWord-cons bits i b mid out e p put rest = record {
    same_length = rest.same_length ∙ put.same_length;
    is_bytes = rest.is_bytes;
    bit = λ q r.
        let at : q ≡ w * 11 + i → q - w * 11 ≡ i = λ s. omega arith in
        ground (arith, rest.bit q r, put.bit q, at, ap (digit index));
  }

  IsPutWord-skip :
      (bits : List ℕ) (i : ℕ) (out : List ℕ)
      → 256 ≤ w * 11 + i
      → IsPutWord bits w index (i + 1) out
      → IsPutWord bits w index i out
  IsPutWord-skip bits i out p rest = record {
    same_length = rest.same_length;
    is_bytes = rest.is_bytes;
    bit = λ q r. ground (arith, rest.bit q r);
  }

  put_index_loop-ok :
      (left i : ℕ) (bits : List ℕ)
      → i + left ≡ 11
      → length bits ≡ 32
      → IsBytes bits
      → (out : List ℕ) × (put_index_loop w index left i bits ≡ ok out)
        × IsPutWord bits w index i out
  unfolding put_index_loop
  put_index_loop-ok zero i bits e l h =
      (bits, refl, record { same_length = refl; is_bytes = h; bit = λ q r. ground arith })
  put_index_loop-ok (suc left) i bits e l h = elim (Bool-cases (ltb (w * 11 + i) 256)) [
    | inl inside ↦
        let (b, got, bit) =
          get_bit-ok (size_bytes 8 index) i (size_bytes-IsBytes 8 index)
            (rw (size_bytes-length 8 index) (omega arith)) in
        let (mid, stored, put) = put_bit-ok bits (w * 11 + i) b h (ground arith) in
        let (out, run, rest) =
          put_index_loop-ok left (i + 1) mid (omega arith) (put.same_length ∙ l) put.is_bytes in
        (
          out,
          rw (inside, got, stored) run,
          IsPutWord-cons bits i b mid out (bit ∙ size_bytes-digit 8 index i (omega arith))
              (omega arith) put rest,
        )
    | inr outside ↦
        let (out, run, rest) = put_index_loop-ok left (i + 1) bits (omega arith) l h in
        (out, rw outside run, IsPutWord-skip bits i out (ground arith) rest)
  ]

  -- `putIndex` stays in the 32 bytes of a seed and stores the low 11 bits of the index, as far as
  -- they lie in the seed.
  pub put_index-ok :
      (bits : List ℕ)
      → length bits ≡ 32
      → IsBytes bits
      → (out : List ℕ) × (put_index bits w index ≡ ok out) × IsPutWord bits w index 0 out
  unfolding put_index
  put_index-ok bits l h = put_index_loop-ok 11 0 bits refl l h
