-- ===== src/Mnemonic/Phrase.antt =====
-- The phrase that `masterSeedToWords` makes of a recovered seed, beside the one it was recovered
-- from.
use cscrypto.Base.{
  ℕ, suc, ◌+◌, ◌-◌, ◌*◌, ◌/◌, ◌%◌, ◌<◌, ◌≡◌, ◌↔◌, inl, inr, refl, sym, ap, ap₂, ◌∙◌, Bool,
  Bool-cases, ltb, List, [], ◌∷◌, ◌++◌, arith, length, get_or, get_or_ext, get_or-map, Outcome, ok,
  fault,
}
use cscrypto.Blake2.{Blake2}
use cscrypto.Sodium.Memory.{Region, region, no_access, SodiumMemory}
use cscrypto.Dictionary.{Dictionary, IsDictionary}
use cscrypto.Mnemonic.{master_seed_to_words, words_to_master_seed, WordList}
use cscrypto.Mnemonic.Bits.{digit, eq_of_digits}
use cscrypto.Mnemonic.Recover.{phrase, IsPlaces, IsSeedOf, words_to_master_seed-phrase}
use cscrypto.Mnemonic.RoundTrip.{
  places, places-IsPlaces, places-digit, bit_at-append, checksum, checksum_lem,
  master_seed_to_words-ok,
}
use cscrypto.Mnemonic.Checksum.{digit-div_eight, eq_of_places, seed_digit}

-- The last word of the phrase that `masterSeedToWords` makes has the checksum in its upper bits.
place_of_word :
    (js out : List ℕ) (c k t : ℕ)
    → IsSeedOf js out
    → k < 24
    → t < 11
    → k * 11 + t < 256
    → digit (get_or (places (out ++ (c ∷ []))) k 0) t ≡ digit (get_or js k 0) t
place_of_word js out c k t s p q r =
    ap₂ (λ (a b : ℕ). digit (get_or (places (out ++ (c ∷ []))) a 0) b)
      (let e : k ≡ (k * 11 + t) / 11 = omega arith in e)
      (let e : t ≡ (k * 11 + t) % 11 = omega arith in e)
    ∙ places-digit (out ++ (c ∷ [])) (k * 11 + t) (omega arith)
    ∙ bit_at-append out (c ∷ []) (k * 11 + t) (omega (arith, s.seed_length))
    ∙ seed_digit js out k t s q r

get_or-append_end : (xs : List ℕ) (x : ℕ) → get_or (xs ++ (x ∷ [])) (length xs) 0 ≡ x
get_or-append_end [] x = refl
get_or-append_end (y ∷ ys) x = get_or-append_end ys x

place_of_checksum :
    (out : List ℕ) (c t : ℕ)
    → length out ≡ 32
    → t < 8
    → digit (get_or (places (out ++ (c ∷ []))) 23 0) (suc (suc (suc t))) ≡ digit c t
place_of_checksum out c t l p =
    ap₂ (λ (a b : ℕ). digit (get_or (places (out ++ (c ∷ []))) a 0) b)
      (let e : 23 ≡ (256 + t) / 11 = omega arith in e)
      (let e : suc (suc (suc t)) ≡ (256 + t) % 11 = omega arith in e)
    ∙ places-digit (out ++ (c ∷ [])) (256 + t) (omega arith)
    ∙ ap₂ (λ (a b : ℕ). digit (get_or (out ++ (c ∷ [])) a 0) b)
        (let e : (256 + t) / 8 ≡ length out = omega arith in e)
        (let e : (256 + t) % 8 ≡ t = omega arith in e)
    ∙ ap (λ (x : ℕ). digit x t) (get_or-append_end out c)

module _ (js out : List ℕ) (c : ℕ) (s : IsSeedOf js out) (p : IsPlaces js) (small : c < 256) where
  word_23_digit :
      get_or js 23 0 / 8 ≡ c
      → (t : ℕ) → t < 11
      → digit (get_or (places (out ++ (c ∷ []))) 23 0) t ≡ digit (get_or js 23 0) t
  word_23_digit e t h = elim (Bool-cases (ltb t 3)) [
    | inl low ↦ place_of_word js out c 23 t s (omega arith) h (ground arith)
    | inr high ↦
        let up : t ≡ suc (suc (suc (t - 3))) = ground arith in
        rw up (
          place_of_checksum out c (t - 3) s.seed_length (omega arith)
          ∙ ap (λ (x : ℕ). digit x (t - 3)) (sym e)
          ∙ sym (digit-div_eight (get_or js 23 0) (t - 3)))
  ]

  places-eq_of_checksum : get_or js 23 0 / 8 ≡ c → places (out ++ (c ∷ [])) ≡ js
  places-eq_of_checksum e =
      let q = places-IsPlaces (out ++ (c ∷ [])) in
      get_or_ext 0 (places (out ++ (c ∷ []))) js (q.count ∙ sym p.count) λ k r.
        eq_of_places _ _ (q.known k r) (p.known k (omega (arith, q.count, p.count))) λ t h.
          elim (Bool-cases (ltb k 23)) [
            | inl early ↦ place_of_word js out c k t s (ground arith) h (ground arith)
            | inr late ↦ let at : k ≡ 23 = ground (arith, q.count) in rw at (word_23_digit e t h)
          ]

  checksum_of_places-eq : places (out ++ (c ∷ [])) ≡ js → get_or js 23 0 / 8 ≡ c
  checksum_of_places-eq e =
      eq_of_digits (get_or js 23 0 / 8) c (omega (arith, p.known 23 (omega (arith, p.count)))) small
        λ t h.
          sym (digit-div_eight (get_or js 23 0) t)
          ∙ ap (λ (ks : List ℕ). digit (get_or ks 23 0) (suc (suc (suc t)))) (sym e)
          ∙ place_of_checksum out c t s.seed_length h

phrase-injective :
    (d : Dictionary) (js ks : List ℕ)
    → IsDictionary d
    → IsPlaces js
    → IsPlaces ks
    → phrase d js ≡ phrase d ks
    → js ≡ ks
phrase-injective d js ks is p q e = get_or_ext 0 js ks (p.count ∙ sym q.count) λ i r.
    is.distinct (get_or js i 0) (get_or ks i 0) (omega (arith, is.full, p.known i r))
      (omega (arith, is.full, q.known i (omega (arith, p.count, q.count))))
      (sym (get_or-map (λ j. get_or d j "") js i 0 "" r)
        ∙ ap (λ (ws : WordList). get_or ws i "") e
        ∙ get_or-map (λ j. get_or d j "") ks i 0 "" (omega (arith, p.count, q.count)))

words_of : Outcome (WordList × Region) → WordList
words_of (ok (words, seed)) = words
words_of fault = []

-- From a phrase of 24 known words `wordsToMasterSeed` recovers a seed without an error, and
-- `masterSeedToWords` makes the same phrase of that seed exactly when the upper 8 bits of the place
-- of the last word are the checksum of the seed.
pub words_to_master_seed-master_seed_to_words :
    (m : SodiumMemory) (b : Blake2) (d : Dictionary) (handler : Bool)
    (fresh scratch garbage js : List ℕ)
    → IsDictionary d
    → length fresh ≡ 32
    → length scratch ≡ 33
    → IsPlaces js
    → (out : List ℕ) × (words_to_master_seed m fresh (phrase d js) d handler
        ≡ ok (record { seed = region out no_access; reported = [] }))
      × ((master_seed_to_words m b scratch garbage (region out no_access) d
            ≡ ok (phrase d js, region out no_access))
          ↔ (get_or js 23 0 / 8 ≡ checksum b garbage out))
unfolding words_of
words_to_master_seed-master_seed_to_words m b d handler fresh scratch garbage js is fl sl p =
    let (out, run, s) = words_to_master_seed-phrase m d is handler fresh fl js p in
    let c = checksum b garbage out in
    let small = (checksum_lem b garbage out).1 in
    let back =
      master_seed_to_words-ok m b d is scratch garbage sl out no_access s.seed_length s.is_bytes in
    (
      out,
      run,
      (
        λ e. checksum_of_places-eq js out c s p small (
            phrase-injective d (places (out ++ (c ∷ []))) js is (places-IsPlaces _) p
              (ap words_of (sym back ∙ e))),
        λ e.
            back
            ∙ ap (λ (ks : List ℕ). ok (phrase d ks, region out no_access))
                (places-eq_of_checksum js out c s p small e),
      ),
    )
