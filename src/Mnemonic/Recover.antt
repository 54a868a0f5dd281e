-- ===== src/Mnemonic/Recover.antt =====
-- `wordsToMasterSeed`: what it makes of a phrase of known words, and of one with an unknown word.
use mathlib.Core.List.{append-nil}
use Prim.Native.String.{String}
use cscrypto.Base.{
  ℕ, zero, suc, ◌+◌, ◌-◌, ◌*◌, ◌/◌, ◌%◌, ◌≤◌, ◌<◌, ◌≡◌, ◌≢◌, refl, sym, ap, ap₂, subst, ◌∙◌, Bool,
  false, List, [], ◌∷◌, ◌++◌, map, arith, ltb, if◌then◌else◌, length, replicate, get_or, IsBytes,
  ok, some,
}
use cscrypto.Sodium.Memory.{region, no_access, read_write, SodiumMemory}
use cscrypto.KeysDerivation.{lock_master_seed}
use cscrypto.Dictionary.{Dictionary, IsDictionary, dictionary_size}
use cscrypto.Mnemonic.{
  recover_loop, find_word, put_index, num_words, words_to_master_seed, WordList,
}
use cscrypto.Mnemonic.Bits.{digit, digit-zero, bit_at}
use cscrypto.Mnemonic.Put.{IsPutWord, put_index-ok}
use cscrypto.Mnemonic.Words.{find_word-get_or, find_word-none}

-- The first `n` words' places `f` stand in the bits, and the rest is zero.
pub record IsDecoded (f : ℕ → ℕ) (n : ℕ) (bits : List ℕ) : Type 0 where
  pub seed_length : length bits ≡ 32
  pub is_bytes : IsBytes bits
  pub bit :
      (q : ℕ)
      → q < 256
      → bit_at bits q ≡ (if ltb q (n * 11) then digit (f (q / 11)) (q % 11) else 0)

get_or-replicate : (n i : ℕ) → ◌≡◌ {A = ℕ} (get_or (replicate n 0) i 0) 0
get_or-replicate zero i = refl
get_or-replicate (suc n) zero = refl
get_or-replicate (suc n) (suc i) = get_or-replicate n i

IsDecoded-zero : (f : ℕ → ℕ) → IsDecoded f 0 (replicate 32 0)
IsDecoded-zero f = record {
  seed_length = refl;
  is_bytes = λ i. omega (arith, get_or-replicate 32 i);
  bit = λ q r.
      let none_yet : ltb q (0 * 11) ≡ false = ground arith in
      rw none_yet
        (ap (λ (x : ℕ). digit x (q % 8)) (get_or-replicate 32 (q / 8)) ∙ digit-zero (q % 8));
}

in_word :
    (f : ℕ → ℕ) (n q : ℕ)
    → n * 11 ≤ q
    → q < n * 11 + 11
    → digit (f n) (q - n * 11) ≡ digit (f (q / 11)) (q % 11)
in_word f n q lo hi =
    ap₂ (λ (a b : ℕ). digit (f a) b) (let e : n ≡ q / 11 = omega arith in e)
      (let e : q - n * 11 ≡ q % 11 = omega arith in e)

IsDecoded-suc :
    (f : ℕ → ℕ) (n : ℕ) (bits out : List ℕ)
    → IsDecoded f n bits
    → IsPutWord bits n (f n) 0 out
    → IsDecoded f (n + 1) out
IsDecoded-suc f n bits out d put = record {
  seed_length = put.same_length ∙ d.seed_length;
  is_bytes = put.is_bytes;
  bit = λ q r. ground (arith, put.bit q r, d.bit q r, in_word f n q);
}

-- The words that stand at the places `js`.
abbrev pub phrase : Dictionary → List ℕ → WordList
phrase d js = map (λ j. get_or d j "") js

recover_loop-cons :
    (m : SodiumMemory) (d : Dictionary) (handler : Bool) (w : String) (ws : WordList) (n j : ℕ)
    (bits out : List ℕ)
    → find_word w d 0 ≡ some j
    → put_index bits n j ≡ ok out
    → recover_loop m d handler (w ∷ ws) n (region bits read_write)
      ≡ recover_loop m d handler ws (n + 1) (region out read_write)
unfolding recover_loop
recover_loop-cons m d handler w ws n j bits out found put = rw (found, recover_loop, put)

module _ (m : SodiumMemory) (d : Dictionary) (is : IsDictionary d) (handler : Bool) where
  -- The loop over a known part of the phrase, before the words `ws`.
  recover_loop-append :
      (f : ℕ → ℕ) (js : List ℕ) (ws : WordList) (n : ℕ) (bits : List ℕ)
      → ((k : ℕ) → k < length js → get_or js k 0 < 2048)
      → ((k : ℕ) → k < length js → f (n + k) ≡ get_or js k 0)
      → IsDecoded f n bits
      → (out : List ℕ) × (recover_loop m d handler (phrase d js ++ ws) n (region bits read_write)
          ≡ recover_loop m d handler ws (n + length js) (region out read_write))
        × IsDecoded f (n + length js) out
  recover_loop-append f [] ws n bits small at dec =
      let e : n ≡ n + 0 = omega arith in
      (
        bits,
        ap (λ (x : ℕ). recover_loop m d handler ws x (region bits read_write)) e,
        subst (λ (x : ℕ). IsDecoded f x bits) e dec,
      )
  recover_loop-append f (j ∷ js) ws n bits small at dec =
      let (out, run, put) = put_index-ok n j bits dec.seed_length dec.is_bytes in
      let here : f n ≡ j = ap f (omega arith) ∙ at 0 (omega arith) in
      let (final, rest, all) =
        recover_loop-append f js ws (n + 1) out (λ k p. small (suc k) (omega arith))
          (λ k p. ap f (omega arith) ∙ at (suc k) (omega arith))
          (IsDecoded-suc f n bits out dec (rw here put)) in
      let e : n + 1 + length js ≡ n + suc (length js) = omega arith in
      (
        final,
        recover_loop-cons m d handler _ (phrase d js ++ ws) n j bits out
              (find_word-get_or d j 0 is.distinct (omega (arith, is.full, small 0 (omega arith)))
                ∙ ap some (omega arith))
              run
            ∙ rest
            ∙ ap (λ (x : ℕ). recover_loop m d handler ws x (region final read_write)) e,
        subst (λ (x : ℕ). IsDecoded f x final) e all,
      )

  -- The known words of `js` before the words `ws`, from the start of the function.
  words_to_master_seed-append :
      (fresh : List ℕ) (js : List ℕ) (ws : WordList)
      → length fresh ≡ 32
      → ((k : ℕ) → k < length js → get_or js k 0 < 2048)
      → (out : List ℕ) × (words_to_master_seed m fresh (phrase d js ++ ws) d handler
          ≡ recover_loop m d handler ws (length js) (region out read_write))
        × IsDecoded (λ k. get_or js k 0) (length js) out
  unfolding words_to_master_seed
  words_to_master_seed-append fresh js ws l small =
      let (out, run, dec) =
        recover_loop-append (λ k. get_or js k 0) js ws 0 (replicate 32 0) small
          (λ k p. ap (λ (i : ℕ). get_or js i 0) (omega arith)) (IsDecoded-zero _) in
      let e : 0 + length js ≡ length js = omega arith in
      (
        out,
        rw (m.memzero_lem 32 fresh l)
            (run ∙ ap (λ (x : ℕ). recover_loop m d handler ws x (region out read_write)) e),
        subst (λ (x : ℕ). IsDecoded (λ k. get_or js k 0) x out) e dec,
      )

-- The seed that a phrase of 24 known words stands for: bit `q` is bit `q % 11` of the place of
-- word `q / 11`.
pub record IsSeedOf (js : List ℕ) (out : List ℕ) : Type 0 where
  pub seed_length : length out ≡ 32
  pub is_bytes : IsBytes out
  pub bit : (q : ℕ) → q < 256 → bit_at out q ≡ digit (get_or js (q / 11) 0) (q % 11)

-- The places of the words of a phrase: 24 of them, all in the dictionary.
pub record IsPlaces (js : List ℕ) : Type 0 where
  pub count : length js ≡ num_words
  pub known : (k : ℕ) → k < length js → get_or js k 0 < dictionary_size

module _ (m : SodiumMemory) (d : Dictionary) (is : IsDictionary d) (handler : Bool) (fresh : List ℕ)
    (l : length fresh ≡ 32) where
  -- `wordsToMasterSeed` recovers from a phrase of 24 known words, with no fault and no call of the
  -- error handler, the locked seed in which bit `q` is bit `q % 11` of the place of word `q / 11`.
  pub words_to_master_seed-phrase :
      (js : List ℕ)
      → IsPlaces js
      → (out : List ℕ) × (words_to_master_seed m fresh (phrase d js) d handler
          ≡ ok (record { seed = region out no_access; reported = [] }))
        × IsSeedOf js out
  unfolding recover_loop lock_master_seed
  words_to_master_seed-phrase js p =
      let (out, run, dec) = words_to_master_seed-append m d is handler fresh js [] l p.known in
      (
        out,
        ap (λ ws. words_to_master_seed m fresh ws d handler) (sym (append-nil (phrase d js)))
            ∙ run
            ∙ rw m.noaccess_lem,
        record {
          seed_length = dec.seed_length;
          is_bytes = dec.is_bytes;
          bit = λ q r. ground (arith, dec.bit q r, p.count);
        },
      )

  -- At a word that stands nowhere in the dictionary, after any number of known words and whatever
  -- follows, `wordsToMasterSeed` returns 32 zero bytes, calls the error handler once, if there is
  -- one, and leaves the returned seed unlocked: readable and writable.
  pub words_to_master_seed-corrupted :
      (js : List ℕ) (w : String) (ws : WordList)
      → ((k : ℕ) → k < length js → get_or js k 0 < dictionary_size)
      → ((k : ℕ) → k < length d → get_or d k "" ≢ w)
      → words_to_master_seed m fresh (phrase d js ++ (w ∷ ws)) d handler
        ≡ ok (record {
          seed = region (replicate 32 0) read_write;
          reported = if handler then "Corrupted word list" ∷ [] else [];
        })
  unfolding recover_loop
  words_to_master_seed-corrupted js w ws known absent =
      let (out, run, dec) = words_to_master_seed-append m d is handler fresh js (w ∷ ws) l known in
      run ∙ rw (find_word-none w d 0 absent, recover_loop, m.memzero_lem 32 out dec.seed_length)
