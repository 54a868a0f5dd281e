-- ===== src/Tests/Mnemonics.antt =====
-- The mnemonic functions over the English dictionary.
use cscrypto.Base.{
  ℕ, ◌/◌, ◌<◌, ◌≡◌, ◌↔◌, refl, true, false, List, [], ◌∷◌, ◌++◌, arith, length, replicate, get_or,
  IsBytes, ok, fault, some, none, passes, passes-at, ltb,
}
use cscrypto.Dictionary.En.{en}
use cscrypto.Dictionary.Order.{en-IsDictionary}
use cscrypto.Sodium.Memory.{region, no_access, read_only, read_write, simple_memory}
use cscrypto.Mnemonic.{
  master_seed_to_words, words_to_master_seed, num_words, WordList, get_bit, get_index,
  get_index_loop, find_word, words_loop,
}
use cscrypto.Mnemonic.Recover.{
  phrase, IsPlaces, IsSeedOf, words_to_master_seed-phrase, words_to_master_seed-corrupted,
}
use cscrypto.Mnemonic.RoundTrip.{master_seed_to_words-words_to_master_seed, checksum}
use cscrypto.Mnemonic.Checksum.{SameSeedWords, words_to_master_seed-eq_iff}
use cscrypto.Mnemonic.Phrase.{words_to_master_seed-master_seed_to_words}
use cscrypto.Tests.Values.{
  all_bytes, all_bytes-IsBytes, is_absent, is_absent_sound, simple_blake2, seed_bytes, fresh_bytes,
  scratch_bytes,
}

seed_bytes-IsBytes : IsBytes seed_bytes
unfolding all_bytes
seed_bytes-IsBytes = all_bytes-IsBytes seed_bytes refl

master_seed_to_words-words_to_master_seed_example :
    (words : WordList) × (master_seed_to_words simple_memory simple_blake2 scratch_bytes []
        (region seed_bytes read_only)
        en
      ≡ ok (words, region seed_bytes no_access))
    × (length words ≡ num_words)
    × (words_to_master_seed simple_memory fresh_bytes words en true
        ≡ ok (record { seed = region seed_bytes no_access; reported = [] }))
master_seed_to_words-words_to_master_seed_example =
    master_seed_to_words-words_to_master_seed simple_memory simple_blake2 en en-IsDictionary
      scratch_bytes [] refl seed_bytes fresh_bytes read_only true refl seed_bytes-IsBytes refl

-- Places of a phrase, and of one with another checksum.
abbrev some_places : List ℕ
some_places =
    5 ∷ 2047 ∷ 0 ∷ 1024 ∷ 77 ∷ 12 ∷ 900 ∷ 1500 ∷ 31 ∷ 32 ∷ 33 ∷ 34 ∷ 35 ∷ 36 ∷ 37 ∷ 38 ∷ 39 ∷ 40
    ∷ 41 ∷ 42 ∷ 43 ∷ 44 ∷ 45 ∷ 11 ∷ []

abbrev other_places : List ℕ
other_places =
    5 ∷ 2047 ∷ 0 ∷ 1024 ∷ 77 ∷ 12 ∷ 900 ∷ 1500 ∷ 31 ∷ 32 ∷ 33 ∷ 34 ∷ 35 ∷ 36 ∷ 37 ∷ 38 ∷ 39 ∷ 40
    ∷ 41 ∷ 42 ∷ 43 ∷ 44 ∷ 45 ∷ 1027 ∷ []

known_of_table :
    (js : List ℕ)
    → passes (length js) (λ k. ltb (get_or js k 0) 2048) ≡ true
    → (k : ℕ) → k < length js
    → get_or js k 0 < 2048
known_of_table js t k p =
    ground (arith, passes-at (length js) (λ k. ltb (get_or js k 0) 2048) k t p)

some_places-IsPlaces : IsPlaces some_places
unfolding passes
some_places-IsPlaces = record { count = refl; known = known_of_table some_places refl }

other_places-IsPlaces : IsPlaces other_places
unfolding passes
other_places-IsPlaces = record { count = refl; known = known_of_table other_places refl }

words_to_master_seed-phrase_example :
    (out : List ℕ) × (words_to_master_seed simple_memory fresh_bytes
        (phrase en some_places)
        en
        false
      ≡ ok (record { seed = region out no_access; reported = [] }))
    × IsSeedOf some_places out
words_to_master_seed-phrase_example =
    words_to_master_seed-phrase simple_memory en en-IsDictionary false fresh_bytes refl some_places
      some_places-IsPlaces

words_to_master_seed-eq_iff_example :
    (words_to_master_seed simple_memory fresh_bytes (phrase en some_places) en true
      ≡ words_to_master_seed simple_memory fresh_bytes (phrase en other_places) en true)
    ↔ SameSeedWords some_places other_places
words_to_master_seed-eq_iff_example =
    words_to_master_seed-eq_iff simple_memory en en-IsDictionary true fresh_bytes refl some_places
      other_places some_places-IsPlaces other_places-IsPlaces

words_to_master_seed-master_seed_to_words_example :
    (out : List ℕ) × (words_to_master_seed simple_memory fresh_bytes (phrase en some_places) en true
      ≡ ok (record { seed = region out no_access; reported = [] }))
    × ((master_seed_to_words simple_memory simple_blake2 scratch_bytes [] (region out no_access) en
          ≡ ok (phrase en some_places, region out no_access))
        ↔ (get_or some_places 23 0 / 8 ≡ checksum simple_blake2 [] out))
words_to_master_seed-master_seed_to_words_example =
    words_to_master_seed-master_seed_to_words simple_memory simple_blake2 en true fresh_bytes
      scratch_bytes [] some_places en-IsDictionary refl refl some_places-IsPlaces

two_known : (k : ℕ) → k < 2 → get_or (3 ∷ 99 ∷ []) k 0 < 2048
unfolding passes
two_known = known_of_table (3 ∷ 99 ∷ []) refl

unknown_word : is_absent "creditscom" en ≡ true
unfolding is_absent en
unknown_word = refl

words_to_master_seed-corrupted_example :
    words_to_master_seed simple_memory fresh_bytes
      (phrase en (3 ∷ 99 ∷ []) ++ ("creditscom" ∷ "zoo" ∷ []))
      en
      true
    ≡ ok (record {
      seed = region (replicate 32 0) read_write;
      reported = "Corrupted word list" ∷ [];
    })
words_to_master_seed-corrupted_example =
    words_to_master_seed-corrupted simple_memory en en-IsDictionary true fresh_bytes refl
      (3 ∷ 99 ∷ []) "creditscom" ("zoo" ∷ []) two_known
      (is_absent_sound "creditscom" en unknown_word)

-- The lowest 11 bits of the bytes 0xff, 0x03 are 1023, and the next 11 are 0.
get_index_test :
    (get_index (255 ∷ 3 ∷ 0 ∷ 0 ∷ []) 0 ≡ ok 1023) × (get_index (255 ∷ 3 ∷ 0 ∷ 0 ∷ []) 1 ≡ ok 0)
unfolding get_index get_index_loop get_bit
get_index_test = (refl, refl)

-- Reading past the buffer is a fault.
get_bit_test : get_bit (255 ∷ []) 8 ≡ fault
unfolding get_bit
get_bit_test = refl

find_word_test : (find_word "zoo" en 0 ≡ some 2047) × (find_word "creditscom" en 0 ≡ none)
unfolding find_word en
find_word_test = (refl, refl)

-- The first 11 bits of the seed are 456, and word 456 is "decorate".
first_word_test : words_loop en seed_bytes 1 0 ≡ ok ("decorate" ∷ [])
unfolding words_loop get_index get_index_loop get_bit en
first_word_test = refl
