-- ===== src/KeyGenWidget.antt =====
-- qt/src/keygenwidget.cpp: the tab for the master seed and the pairs of keys. A handler is a function
-- of the state; the files that a user chooses and the random bytes are arguments.
pub mod Files
pub mod Seed
pub mod SeedFile
pub mod Restore
pub mod KeyFile
use Prim.Native.String.{String}
use text.Mathlib.Text.{◌==◌ as str_eq}
use cscrypto.Base.{
  ℕ, zero, suc, ◌+◌, ◌%◌, ◌^◌, Bool, true, false, not, Option, none, some, List, [], ◌∷◌, ◌==◌, ltb,
  if◌then◌else◌, length, Outcome, ok, ◌>>=◌, get_or,
}
use cscrypto.Base58.{Base58}
use cscrypto.Blake2.{Blake2}
use cscrypto.Dictionary.{Dictionary}
use cscrypto.Texts.{glue, extract}
use cscrypto.Sodium.Memory.{Region, region, no_access, SodiumMemory}
use cscrypto.Sodium.Sign.{SodiumSign}
use cscrypto.Sodium.Kdf.{SodiumKdf}
use cscrypto.KeyListModel.{KeyPair, key_pair, KeyListModel, ModelIndex, add_key_pair}
use cscrypto.KeysDerivation.{MasterSeed, generate_master_seed, derive_key_pair, no_context}
use cscrypto.MainCryptoFunctions.{private_key_size, get_matching_public}
use cscrypto.Mnemonic.{WordList, num_words, master_seed_to_words, words_to_master_seed}

-- `new_seed_enabled`, `key_gen_enabled` and `keys_ops_enabled` belong to the controls that the signals
-- `enableNewSeed`, `enableKeyGen` and `enableKeysOperations` reach. `password` holds the bytes of the
-- text of `encryptionPswdLineEdit_`, `keys_to_decrypt` is the global `keysToDecrypt`.
pub record KeyGenWidget : Type 0 where
  pub keys : KeyListModel
  pub current_index : ModelIndex
  pub master_seed : MasterSeed
  pub next_key_id : ℕ
  pub new_seed_enabled : Bool
  pub key_gen_enabled : Bool
  pub keys_ops_enabled : Bool
  pub password : List ℕ
  pub keys_to_decrypt : String × List ℕ
  pub status : String

abbrev pub to_status_bar : String → KeyGenWidget → KeyGenWidget
to_status_bar text w = record w { status = text }

-- The whole dictionary is searched, and the last match counts.
unfoldable pub find_word_in_dictionary : String → Dictionary → ℕ → Option ℕ → Option ℕ
find_word_in_dictionary word [] i found = found
find_word_in_dictionary word (entry ∷ d) i found =
    find_word_in_dictionary word d (i + 1) (if str_eq word entry then some i else found)

-- The loop of `fillMasterSeedFromString`, with so many words left; behind the last of them the text
-- is not read.
unfoldable pub read_words : Dictionary → ℕ → String → Option WordList
read_words d zero text = some []
read_words d (suc left) text =
    let (word, rest) = extract text in
    let later = read_words d left rest in
    elim (find_word_in_dictionary word d 0 none) [
      | none ↦ none
      | some index ↦ elim later [ none ↦ none | some words ↦ some (get_or d index "" ∷ words) ]
    ]

unfoldable pub disable_key_gen : KeyGenWidget → KeyGenWidget
disable_key_gen w = record w { new_seed_enabled = true; key_gen_enabled = false }

unfoldable pub enable_key_gen : KeyGenWidget → KeyGenWidget
enable_key_gen w = record w { key_gen_enabled = true; new_seed_enabled = false }

module _ (m : SodiumMemory) (d : Dictionary) where
  -- `fresh` is what the memory of the new seed holds.
  unfoldable pub fill_master_seed : (fresh : List ℕ) → String → KeyGenWidget → Outcome KeyGenWidget
  fill_master_seed fresh text w = elim (read_words d num_words text) [
    | none ↦ ok (disable_key_gen (to_status_bar "Incorrect seed phrase!" w))
    | some words ↦ do
      recovered ← words_to_master_seed m fresh words d false
      ok (record (to_status_bar "Seed phrase is correct." (enable_key_gen w)) {
        master_seed = recovered.seed;
      })
  ]

  -- `none` is a file that was not opened.
  unfoldable pub load_seed_from_file :
      (fresh : List ℕ) → Option String → KeyGenWidget → Outcome KeyGenWidget
  load_seed_from_file fresh none w = ok (to_status_bar "File to load seed from was not opened!" w)
  load_seed_from_file fresh (some text) w = fill_master_seed fresh text w

-- `res += w; res += ' ';`
unfoldable pub add_words : String → WordList → String
add_words res [] = res
add_words res (word ∷ words) = add_words (glue (glue res word) " ") words

module _ (m : SodiumMemory) (b : Blake2) (scratch garbage : List ℕ) (d : Dictionary) where
  unfoldable pub get_seed_string : KeyGenWidget → Outcome (String × KeyGenWidget)
  get_seed_string w = do
    (words, seed) ← master_seed_to_words m b scratch garbage w.master_seed d
    ok (add_words "" words, record w { master_seed = seed })

  -- Beside the state, what is written to the file; `opens` says whether it could be opened.
  unfoldable pub save_seed_to_file :
      (opens : Bool) → KeyGenWidget → Outcome (Option String × KeyGenWidget)
  save_seed_to_file false w = ok (none, to_status_bar "File to save seed was not opened!" w)
  save_seed_to_file true w = do
    (text, w') ← get_seed_string w
    ok (some text, to_status_bar "Seed saved to file." w')

unfoldable pub gen_new_seed : SodiumMemory → (random : List ℕ) → KeyGenWidget → KeyGenWidget
gen_new_seed m random w = record (enable_key_gen w) {
  master_seed = generate_master_seed m random;
  status = "New seed has been generated! Save it to restore your keys in future.";
}

unfoldable pub gen_key_pair :
    SodiumMemory → (s : SodiumSign) → SodiumKdf s → KeyGenWidget → Outcome KeyGenWidget
gen_key_pair m s kdf w = do
  (pk, sk, seed) ← derive_key_pair m s kdf w.master_seed w.next_key_id no_context
  ok (record w {
    keys = add_key_pair (key_pair pk (some sk)) w.keys;
    master_seed = seed;
    next_key_id = (w.next_key_id + 1) % 2 ^ 64;
  })

unfoldable pub handle_priv_key_line :
    Base58 → SodiumMemory → SodiumSign → String → KeyGenWidget → Outcome KeyGenWidget
handle_priv_key_line b m s text w =
    let refused = ok (to_status_bar "Incorrect private key passed!" w) in
    elim (b.decode text) [
      | none ↦ refused
      | some bytes ↦
          if length bytes == private_key_size
          then (do
            (pk, sk) ← get_matching_public m s (region bytes no_access)
            ok (record w {
              keys = add_key_pair (key_pair pk (some sk)) w.keys;
              status = "Public key was generated and added to available keys!";
            }))
          else refused
    ]
