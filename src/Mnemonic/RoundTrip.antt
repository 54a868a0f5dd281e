-- ===== src/Mnemonic/RoundTrip.antt =====
-- `masterSeedToWords` and `wordsToMasterSeed` one after the other.
use cscrypto.Base.{
  ℕ, zero, suc, ◌+◌, ◌*◌, ◌/◌, ◌%◌, ◌<◌, ◌≡◌, refl, sym, ap, ◌∙◌, Bool, List, [], ◌∷◌, ◌++◌, arith,
  length, length-append, length-drop, length-map, drop, get_or, get_elem?-eq-get_or,
  get_or-append_left, IsBytes, ok, read, copy_to-append, copy_to-end,
}
use cscrypto.Blake2.{Blake2}
use cscrypto.Sodium.Memory.{region, Access, no_access, SodiumMemory}
use cscrypto.MainCryptoFunctions.{calculate_hash}
use cscrypto.KeysDerivation.{access_master_seed, lock_master_seed}
use cscrypto.Dictionary.{Dictionary, IsDictionary}
use cscrypto.Mnemonic.{master_seed_to_words, words_to_master_seed, num_words, bits_word, WordList}
use cscrypto.Mnemonic.Bits.{digit, digit-lt, bit_at, bits_ext}
use cscrypto.Mnemonic.Index.{digit-value, word_value}
use cscrypto.Mnemonic.Words.{words_from, word_value-lt, words_loop-ok}
use cscrypto.Mnemonic.Recover.{phrase, IsPlaces, words_to_master_seed-phrase}

-- The places of the words from word `i` on.
abbrev pub places_from : List ℕ → ℕ → ℕ → List ℕ
places_from bits zero i = []
places_from bits (suc left) i = word_value bits i ∷ places_from bits left (i + 1)

words_from-phrase :
    (d : Dictionary) (bits : List ℕ) (left i : ℕ)
    → words_from d bits left i ≡ phrase d (places_from bits left i)
words_from-phrase d bits zero i = refl
words_from-phrase d bits (suc left) i =
    ap (λ ws. get_or d (word_value bits i) "" ∷ ws) (words_from-phrase d bits left (i + 1))

places_from-length : (bits : List ℕ) (left i : ℕ) → length (places_from bits left i) ≡ left
places_from-length bits zero i = refl
places_from-length bits (suc left) i = ap suc (places_from-length bits left (i + 1))

places_from-get_or :
    (bits : List ℕ) (left i k : ℕ)
    → k < left
    → get_or (places_from bits left i) k 0 ≡ word_value bits (i + k)
places_from-get_or bits zero i k p = absurd (omega arith)
places_from-get_or bits (suc left) i zero p = ap (word_value bits) (omega arith)
places_from-get_or bits (suc left) i (suc k) p =
    places_from-get_or bits left (i + 1) k (omega arith) ∙ ap (word_value bits) (omega arith)

-- All the places of a seed's words, with the checksum byte.
unfoldable pub places : List ℕ → List ℕ
places bits = places_from bits num_words 0

pub places-IsPlaces : (bits : List ℕ) → IsPlaces (places bits)
unfolding places
places-IsPlaces bits = record {
  count = places_from-length bits 24 0;
  known = λ k p. omega (
    arith,
    places_from-length bits 24 0,
    places_from-get_or bits 24 0 k (omega (arith, places_from-length bits 24 0)),
    word_value-lt bits (0 + k),
  );
}

pub places-digit :
    (bits : List ℕ) (q : ℕ)
    → q < 264
    → digit (get_or (places bits) (q / 11) 0) (q % 11) ≡ bit_at bits q
unfolding places
places-digit bits q r =
    ap (λ (x : ℕ). digit x (q % 11)) (places_from-get_or bits 24 0 (q / 11) (omega arith))
    ∙ digit-value (λ k. bit_at bits ((0 + q / 11) * bits_word + k)) 11 (q % 11) (λ k. digit-lt _ _)
        (omega arith)
    ∙ ap (bit_at bits) (omega arith)

pub bit_at-append : (xs ys : List ℕ) (q : ℕ) → q < 8 * length xs → bit_at (xs ++ ys) q ≡ bit_at xs q
bit_at-append xs ys q p =
    ap (λ (x : ℕ). digit x (q % 8)) (get_or-append_left xs ys (q / 8) 0 (omega arith))

-- The checksum byte.
unfoldable pub checksum : Blake2 → List ℕ → List ℕ → ℕ
checksum b garbage bytes = get_or (calculate_hash b garbage bytes []) 0 0

-- The checksum byte is there: `calculateHash` with no key succeeds.
pub checksum_lem :
    (b : Blake2) (garbage bytes : List ℕ)
    → (read (calculate_hash b garbage bytes []) 0 ≡ ok (checksum b garbage bytes))
      × (checksum b garbage bytes < 256)
unfolding checksum calculate_hash
checksum_lem b garbage bytes =
    let (h, e, l, small) = b.blake2s_lem bytes [] (omega arith) in
    rw (e, calculate_hash) (rw (get_elem?-eq-get_or h 0 0 (omega arith)) refl, small 0)

pub append-IsBytes : (xs : List ℕ) (x : ℕ) → IsBytes xs → x < 256 → IsBytes (xs ++ (x ∷ []))
append-IsBytes [] x h p zero = p
append-IsBytes [] x h p (suc i) = omega arith
append-IsBytes (y ∷ ys) x h p zero = h 0
append-IsBytes (y ∷ ys) x h p (suc i) = append-IsBytes ys x (λ j. h (suc j)) p i

module _ (m : SodiumMemory) (b : Blake2) (d : Dictionary) (is : IsDictionary d)
    (scratch garbage : List ℕ) (sl : length scratch ≡ 33) where
  pub master_seed_to_words-ok :
      (bytes : List ℕ) (a : Access)
      → length bytes ≡ 32
      → IsBytes bytes
      → master_seed_to_words m b scratch garbage (region bytes a) d
        ≡ ok (phrase d (places (bytes ++ checksum b garbage bytes ∷ [])), region bytes no_access)
  unfolding master_seed_to_words access_master_seed lock_master_seed places
  master_seed_to_words-ok bytes a l h =
      let (got, small) = checksum_lem b garbage bytes in
      rw
        (
          m.readonly_lem,
          got,
          copy_to-append scratch bytes (omega arith),
          copy_to-end bytes (drop (length bytes) scratch) (checksum b garbage bytes ∷ [])
              (omega (arith, length-drop (length bytes) scratch)),
          m.noaccess_lem,
          words_loop-ok d (bytes ++ (checksum b garbage bytes ∷ [])) 24 0 is.full
              (omega (arith, length-append bytes (checksum b garbage bytes ∷ [])))
              (append-IsBytes bytes _ h small) (omega arith),
          words_from-phrase,
        )
        refl

  -- `masterSeedToWords` succeeds on every seed of 32 bytes, whatever its protection, and leaves it
  -- locked; `wordsToMasterSeed` on its words gives the same bytes back, locked, and does not call
  -- the error handler.
  pub master_seed_to_words-words_to_master_seed :
      (bytes fresh : List ℕ) (a : Access) (handler : Bool)
      → length bytes ≡ 32
      → IsBytes bytes
      → length fresh ≡ 32
      → (words : WordList) × (master_seed_to_words m b scratch garbage (region bytes a) d
          ≡ ok (words, region bytes no_access))
        × (length words ≡ num_words)
        × (words_to_master_seed m fresh words d handler
            ≡ ok (record { seed = region bytes no_access; reported = [] }))
  master_seed_to_words-words_to_master_seed bytes fresh a handler l h fl =
      let bits = bytes ++ (checksum b garbage bytes ∷ []) in
      let (out, run, seed) =
        words_to_master_seed-phrase m d is handler fresh fl (places bits) (places-IsPlaces bits) in
      let same : out ≡ bytes = bits_ext out bytes (seed.seed_length ∙ sym l) seed.is_bytes h (λ q r.
        seed.bit q (omega (arith, seed.seed_length))
        ∙ places-digit bits q (omega (arith, seed.seed_length))
        ∙ bit_at-append bytes (checksum b garbage bytes ∷ []) q
            (omega (arith, seed.seed_length))) in
      (
        phrase d (places bits),
        master_seed_to_words-ok bytes a l h,
        length-map (places bits) (λ j. get_or d j "") ∙ (places-IsPlaces bits).count,
        run ∙ ap (λ (x : List ℕ). ok (record { seed = region x no_access; reported = [] })) same,
      )
