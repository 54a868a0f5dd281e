-- ===== src/Mnemonic/Checksum.antt =====
-- What the checksum of a phrase is for: it is written into the last word, and never checked.
use cscrypto.Base.{
  ℕ, zero, suc, ◌+◌, ◌*◌, ◌/◌, ◌%◌, ◌<◌, ◌≡◌, ◌↔◌, inl, inr, sym, ap, ap₂, ◌∙◌, Bool, Bool-cases,
  ltb, List, [], arith, length, get_or, Outcome, ok, fault,
}
use cscrypto.Sodium.Memory.{region, no_access, SodiumMemory}
use cscrypto.Dictionary.{Dictionary, IsDictionary}
use cscrypto.Mnemonic.{words_to_master_seed, Recovered}
use cscrypto.Mnemonic.Bits.{digit, bit_at, bits_ext, eq_of_digits}
use cscrypto.Mnemonic.Recover.{phrase, IsPlaces, IsSeedOf, words_to_master_seed-phrase}

pub digit-div_eight : (n t : ℕ) → digit n (suc (suc (suc t))) ≡ digit (n / 8) t
unfolding digit
digit-div_eight n t = ap (λ (m : ℕ). digit m t) (omega arith)

digit-mod_eight : (n t : ℕ) → t < 3 → digit (n % 8) t ≡ digit n t
unfolding digit
digit-mod_eight n zero h = omega arith
digit-mod_eight n (suc zero) h = omega arith
digit-mod_eight n (suc (suc zero)) h = omega arith
digit-mod_eight n (suc (suc (suc t))) h = absurd (omega arith)

-- Numbers are equal when their digits are: the low three, and then those of the eighth parts.
eq_of_low : (x y : ℕ) → ((t : ℕ) → t < 3 → digit x t ≡ digit y t) → x % 8 ≡ y % 8
unfolding digit
eq_of_low x y h = omega (arith, h 0 (omega arith), h 1 (omega arith), h 2 (omega arith))

pub eq_of_places :
    (x y : ℕ) → x < 2048 → y < 2048 → ((t : ℕ) → t < 11 → digit x t ≡ digit y t) → x ≡ y
eq_of_places x y p q h = omega (
  arith,
  eq_of_low x y (λ t r. h t (omega arith)),
  eq_of_digits (x / 8) (y / 8) (omega arith) (omega arith) (λ t r.
      sym (digit-div_eight x t) ∙ h (suc (suc (suc t))) (omega arith) ∙ digit-div_eight y t),
)

pub low_digit : (x y t : ℕ) → x % 8 ≡ y % 8 → t < 3 → digit x t ≡ digit y t
low_digit x y t e h =
    sym (digit-mod_eight x t h) ∙ ap (λ (m : ℕ). digit m t) e ∙ digit-mod_eight y t h

-- Word `k` and its bit `t` make bit `k * 11 + t` of the seed.
pub seed_digit :
    (js out : List ℕ) (k t : ℕ)
    → IsSeedOf js out
    → t < 11
    → k * 11 + t < 256
    → bit_at out (k * 11 + t) ≡ digit (get_or js k 0) t
seed_digit js out k t s p q =
    s.bit (k * 11 + t) q
    ∙ ap₂ (λ (a b : ℕ). digit (get_or js a 0) b) (let e : (k * 11 + t) / 11 ≡ k = omega arith in e)
        (let e : (k * 11 + t) % 11 ≡ t = omega arith in e)

-- Two phrases agree in all that the seed is made of.
pub record SameSeedWords (js js' : List ℕ) : Type 0 where
  pub first : (k : ℕ) → k < 23 → get_or js k 0 ≡ get_or js' k 0
  pub last : get_or js 23 0 % 8 ≡ get_or js' 23 0 % 8

module _ (js js' out out' : List ℕ) (s : IsSeedOf js out) (s' : IsSeedOf js' out') where
  out_eq : SameSeedWords js js' → out ≡ out'
  out_eq same = bits_ext out out' (s.seed_length ∙ sym s'.seed_length) s.is_bytes s'.is_bytes λ q r.
      s.bit q (omega (arith, s.seed_length))
      ∙ elim (Bool-cases (ltb (q / 11) 23)) [
        | inl early ↦ ap (λ (x : ℕ). digit x (q % 11)) (same.first (q / 11) (ground arith))
        | inr late ↦
            let e : q / 11 ≡ 23 = ground (arith, s.seed_length) in
            ap (λ (a : ℕ). digit (get_or js a 0) (q % 11)) e
            ∙ low_digit (get_or js 23 0) (get_or js' 23 0) (q % 11) same.last
                (omega (arith, s.seed_length))
            ∙ ap (λ (a : ℕ). digit (get_or js' a 0) (q % 11)) (sym e)
      ]
      ∙ sym (s'.bit q (omega (arith, s.seed_length)))

  same_digit :
      (k t : ℕ)
      → out ≡ out'
      → t < 11
      → k * 11 + t < 256
      → digit (get_or js k 0) t ≡ digit (get_or js' k 0) t
  same_digit k t e p q =
      sym (seed_digit js out k t s p q)
      ∙ ap (λ (bs : List ℕ). bit_at bs (k * 11 + t)) e
      ∙ seed_digit js' out' k t s' p q

  words_eq : IsPlaces js → IsPlaces js' → out ≡ out' → SameSeedWords js js'
  words_eq p p' e = record {
    first = λ k r.
        eq_of_places (get_or js k 0) (get_or js' k 0) (p.known k (omega (arith, p.count)))
          (p'.known k (omega (arith, p'.count))) λ t h. same_digit k t e h (omega arith);
    last = eq_of_low _ _ (λ t h. same_digit 23 t e (omega arith) (omega arith));
  }

recovered_seed : Outcome Recovered → List ℕ
recovered_seed (ok r) = r.seed.bytes
recovered_seed fault = []

module _ (m : SodiumMemory) (d : Dictionary) (is : IsDictionary d) (handler : Bool) (fresh : List ℕ)
    (l : length fresh ≡ 32) where
  -- Two phrases of 24 known words recover the same seed exactly when their first 23 words are the
  -- same and the places of their last words agree in the low 3 bits: the upper 8 bits of the last
  -- place, the checksum, make no difference.
  pub words_to_master_seed-eq_iff :
      (js js' : List ℕ)
      → IsPlaces js
      → IsPlaces js'
      → (words_to_master_seed m fresh (phrase d js) d handler
          ≡ words_to_master_seed m fresh (phrase d js') d handler)
        ↔ SameSeedWords js js'
  unfolding recovered_seed
  words_to_master_seed-eq_iff js js' p p' =
      let (out, run, s) = words_to_master_seed-phrase m d is handler fresh l js p in
      let (out', run', s') = words_to_master_seed-phrase m d is handler fresh l js' p' in
      (
        λ e. words_eq js js' out out' s s' p p' (ap recovered_seed (sym run ∙ e ∙ run')),
        λ same.
            run
            ∙ ap (λ (x : List ℕ). ok (record { seed = region x no_access; reported = [] }))
                (out_eq js js' out out' s s' same)
            ∙ sym run',
      )
