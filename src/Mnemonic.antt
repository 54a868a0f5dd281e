-- ===== src/Mnemonic.antt =====
-- src/mnemonic.cpp and include/cscrypto/mnemonic.hpp: a master seed as 24 words and back. Buffers
-- are byte lists; a read or write outside one is a fault.
pub mod Bits
pub mod Index
pub mod Put
pub mod Words
pub mod Recover
pub mod RoundTrip
pub mod Checksum
pub mod Phrase
use Prim.Native.String.{String}
use text.Mathlib.Text.{◌==◌ as str_eq}
use cscrypto.Base.{
  ℕ, zero, suc, ◌+◌, ◌-◌, ◌*◌, ◌/◌, ◌%◌, ◌^◌, bit_and, bit_or, Bool, true, false, Option, none,
  some, List, [], ◌∷◌, ltb, to_ℕ, if◌then◌else◌, set, Outcome, ok, ◌>>=◌, read, copy_to, length,
}
use cscrypto.Dictionary.{Dictionary}
use cscrypto.Blake2.{Blake2}
use cscrypto.Sodium.Memory.{Region, region, Access, read_write, SodiumMemory, readable}
use cscrypto.MainCryptoFunctions.{calculate_hash}
use cscrypto.KeysDerivation.{MasterSeed, master_seed_size, access_master_seed, lock_master_seed}

abbrev pub bits_check_sum : ℕ
bits_check_sum = master_seed_size / 4

abbrev pub bits_all : ℕ
bits_all = bits_check_sum + master_seed_size * 8

abbrev pub bits_word : ℕ
bits_word = 11

abbrev pub num_words : ℕ
num_words = bits_all / bits_word

abbrev pub WordList : Type 0
WordList = List String

unfoldable pub get_bit : List ℕ → ℕ → Outcome Bool
get_bit bits pos = do byte ← read bits (pos / 8); ok (ltb 0 (bit_and byte (2 ^ (pos % 8))))

pub put_bit : List ℕ → ℕ → Bool → Outcome (List ℕ)
put_bit bits pos bit = do
  byte ← read bits (pos / 8)
  ok (set bits (pos / 8) (bit_or byte (to_ℕ bit * 2 ^ (pos % 8)) % 256))

-- The `while` loop, with `end - pos` rounds left.
unfoldable pub get_index_loop : List ℕ → ℕ → ℕ → ℕ → Outcome ℕ
get_index_loop bits zero pos result = ok result
get_index_loop bits (suc left) pos result = do
  bit ← get_bit bits pos
  get_index_loop bits left (pos + 1) (bit_or result (to_ℕ bit * 2 ^ (pos % bits_word)))

unfoldable pub get_index : List ℕ → ℕ → Outcome ℕ
get_index bits word_num =
    let pos = word_num * bits_word in
    let end = pos + bits_word in get_index_loop bits (end - pos) pos 0

-- The bytes of a `size_t` in memory, on a little-endian machine.
pub size_bytes : ℕ → ℕ → List ℕ
size_bytes zero n = []
size_bytes (suc k) n = (n % 256) ∷ size_bytes k (n / 256)

-- The `for` loop at `i`, with `left` rounds left.
pub put_index_loop : ℕ → ℕ → ℕ → ℕ → List ℕ → Outcome (List ℕ)
put_index_loop word_num index zero i bits = ok bits
put_index_loop word_num index (suc left) i bits = do
  bits' ←
      if ltb (word_num * bits_word + i) (bits_all - bits_check_sum)
      then (do bit ← get_bit (size_bytes 8 index) i; put_bit bits (word_num * bits_word + i) bit)
      else ok bits
  put_index_loop word_num index left (i + 1) bits'

pub put_index : List ℕ → ℕ → ℕ → Outcome (List ℕ)
put_index bits word_num index = put_index_loop word_num index bits_word 0 bits

-- The loop over `result[i]`, with `left` words left.
unfoldable pub words_loop : Dictionary → List ℕ → ℕ → ℕ → Outcome WordList
words_loop dictionary bits zero i = ok []
words_loop dictionary bits (suc left) i = do
  index ← get_index bits i
  word ← read dictionary index
  rest ← words_loop dictionary bits left (i + 1)
  ok (word ∷ rest)

-- The inner loop of `wordsToMasterSeed`: the first `j` at which the word stands.
unfoldable pub find_word : String → Dictionary → ℕ → Option ℕ
find_word word [] j = none
find_word word (entry ∷ rest) j =
    let later = find_word word rest (j + 1) in if str_eq word entry then some j else later

-- What `wordsToMasterSeed` returns, and the calls of the error handler.
pub record Recovered : Type 0 where
  pub seed : MasterSeed
  pub reported : List String

module _ (m : SodiumMemory) (b : Blake2) where
  -- `scratch` is what `MasterSeedGuard bits` holds at first, `garbage` what the local hash holds.
  -- Beside the words, the seed as it is left.
  pub master_seed_to_words :
      (scratch garbage : List ℕ) → MasterSeed → Dictionary → Outcome (WordList × MasterSeed)
  master_seed_to_words scratch garbage seed dictionary = do
    let accessed = access_master_seed m seed
    contents ← readable accessed
    let hash = calculate_hash b garbage contents []
    sum ← read hash 0
    bits ← copy_to scratch 0 contents
    bits' ← copy_to bits (length contents) (sum ∷ [])
    let locked = lock_master_seed m accessed
    words ← words_loop dictionary bits' num_words 0
    ok (words, locked)

module _ (m : SodiumMemory) where
  -- The outer loop over the words, at word `i`.
  pub recover_loop : Dictionary → Bool → WordList → ℕ → Region → Outcome Recovered
  recover_loop dictionary handler [] i result =
      ok (record { seed = lock_master_seed m result; reported = [] })
  recover_loop dictionary handler (word ∷ words) i result = elim (find_word word dictionary 0) [
    | none ↦ ok (record {
      seed = m.memzero master_seed_size result;
      reported = if handler then "Corrupted word list" ∷ [] else [];
    })
    | some j ↦ do
      contents ← put_index result.bytes i j
      recover_loop dictionary handler words (i + 1) (record result { bytes = contents })
  ]

  -- `fresh` is what the new seed's memory holds, `handler` says whether there is an error handler.
  pub words_to_master_seed : (fresh : List ℕ) → WordList → Dictionary → Bool → Outcome Recovered
  words_to_master_seed fresh words dictionary handler =
      recover_loop dictionary handler words 0 (m.memzero master_seed_size (region fresh read_write))
