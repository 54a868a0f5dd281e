-- ===== src/KeyGenWidget/SeedFile.antt =====
-- A seed that is saved to a file and loaded again.
use Prim.Native.String.{String}
use cscrypto.Base.{
  ℕ, ◌≡◌, refl, sym, ap, subst, ◌∙◌, true, false, some, List, [], ◌∷◌, ◌++◌, arith, length, IsBytes,
  ok_injective, ok,
}
use cscrypto.Blake2.{Blake2}
use cscrypto.Dictionary.En.{en}
use cscrypto.Dictionary.Order.{en-IsDictionary}
use cscrypto.Sodium.Memory.{Access, Region, region, no_access, SodiumMemory}
use cscrypto.Mnemonic.{WordList, master_seed_to_words, words_to_master_seed}
use cscrypto.Mnemonic.Recover.{phrase}
use cscrypto.Mnemonic.RoundTrip.{
  places, places-IsPlaces, checksum, master_seed_to_words-ok,
  master_seed_to_words-words_to_master_seed,
}
use cscrypto.KeyGenWidget.{
  KeyGenWidget, get_seed_string, save_seed_to_file, load_seed_from_file, fill_master_seed,
  read_words, enable_key_gen,
}
use cscrypto.KeyGenWidget.Seed.{seed_text, add_words-seed_text, read_words-phrase, en-IsWords}

module _ (m : SodiumMemory) (b : Blake2) (scratch garbage fresh : List ℕ) (sl : length scratch ≡ 33)
    (fl : length fresh ≡ 32) where
  -- Every seed of 32 bytes, where the buffers have the sizes that the source gives them:
  -- `saveSeedToFile` into a file that opens writes a text, and `loadSeedFromFile` of that text,
  -- in the tab of any session, ends with the same seed, locked, with the buttons for new keys
  -- enabled and those for a new seed disabled; its keys and the next identifier stay. Nothing
  -- faults.
  pub load_seed_from_file-save_seed_to_file :
      (w session : KeyGenWidget) (bytes : List ℕ) (a : Access)
      → w.master_seed ≡ region bytes a
      → length bytes ≡ 32
      → IsBytes bytes
      → (text : String) × (saved loaded : KeyGenWidget) × (save_seed_to_file m b scratch garbage en
            true w
          ≡ ok (some text, saved))
        × (load_seed_from_file m en fresh (some text) session ≡ ok loaded)
        × (loaded.master_seed ≡ region bytes no_access)
        × (loaded.key_gen_enabled ≡ true)
        × (loaded.new_seed_enabled ≡ false)
        × (loaded.keys ≡ session.keys)
        × (loaded.next_key_id ≡ session.next_key_id)
  unfolding save_seed_to_file get_seed_string load_seed_from_file fill_master_seed enable_key_gen
  load_seed_from_file-save_seed_to_file w session bytes a at l small =
      let js = places (bytes ++ (checksum b garbage bytes ∷ [])) in
      let is = en-IsDictionary in
      let known = places-IsPlaces (bytes ++ (checksum b garbage bytes ∷ [])) in
      let words = phrase en js in
      let read : read_words en 24 (seed_text words) ≡ some words =
        subst (λ (n : ℕ). read_words en n (seed_text words) ≡ some words) known.count
          (read_words-phrase en is.distinct en-IsWords js
            (λ k p. omega (arith, known.known k p, is.full))) in
      let sum = checksum b garbage bytes in
      let written = master_seed_to_words-ok m b en is scratch garbage sl bytes a l small in
      let (phrase_words, shown, _, recovered) =
        master_seed_to_words-words_to_master_seed m b en is scratch garbage sl bytes fresh a false l
          small fl in
      let same : phrase_words ≡ words =
        ap (λ (x : WordList × Region). x.0) (ok_injective (sym shown ∙ written)) in
      let recovered' : words_to_master_seed m fresh words en false
          ≡ ok (record { seed = region bytes no_access; reported = [] }) =
        subst
          (λ (x : WordList).
            words_to_master_seed m fresh x en false
            ≡ ok (record { seed = region bytes no_access; reported = [] }))
          same recovered in
      let at_seed : master_seed_to_words m b scratch garbage w.master_seed en
          ≡ ok (words, region bytes no_access) =
        ap (λ (x : Region). master_seed_to_words m b scratch garbage x en) at ∙ written in
      (
        seed_text words,
        record w { master_seed = region bytes no_access; status = "Seed saved to file." },
        record session {
          master_seed = region bytes no_access;
          key_gen_enabled = true;
          new_seed_enabled = false;
          status = "Seed phrase is correct.";
        },
        simp (get_seed_string, at_seed, add_words-seed_text),
        rw (read, fill_master_seed, recovered') refl,
        refl,
        refl,
        refl,
        refl,
        refl,
      )
