-- ===== src/Tests/KeyGenWidgets.antt =====
-- The tab for keys at concrete states.
use Prim.Native.String.{String}
use cscrypto.Base.{
  ℕ, ◌+◌, ◌++◌, length, length-replicate, ◌≡◌, refl, true, false, none, some, List, [], ◌∷◌, arith,
  replicate, ok,
}
use cscrypto.Dictionary.En.{en}
use cscrypto.Sodium.Memory.{region, no_access, simple_memory}
use cscrypto.Sodium.Kdf.{SodiumKdf}
use cscrypto.KeyListModel.{KeyListModel, key_pair, add_key_pair, get_key_pair}
use cscrypto.KeyGenWidget.{KeyGenWidget, save_seed_to_file, load_seed_from_file}
use cscrypto.KeyGenWidget.SeedFile.{load_seed_from_file-save_seed_to_file}
use cscrypto.KeyGenWidget.Restore.{gen_key_pairs, gen_key_pairs-load_seed_from_file}
use cscrypto.KeyGenWidget.Files.{dump_keys_encrypted, load_keys_from_file, decrypt_keys}
use cscrypto.KeyGenWidget.KeyFile.{decrypt_keys-dump_keys_encrypted}
use cscrypto.PrivateKey.Encrypted.{get_key_from_password}
use cscrypto.Tests.Values.{
  simple_blake2, seed_bytes, fresh_bytes, scratch_bytes, all_bytes, all_bytes-IsBytes,
}
use cscrypto.Tests.Exchanges.{simple_sign, repeat_key, first}
use cscrypto.Tests.Aeads.{simple_aead, simple_pwhash}
use cscrypto.Tests.Texts.{simple_base58}

abbrev sk : List ℕ
sk = replicate 64 3

abbrev pk : List ℕ
pk = repeat_key sk

-- A tab without keys, and one with a seed, a selected pair of keys and a password.
abbrev new_session : KeyGenWidget
new_session = record {
  keys = [];
  current_index = none;
  master_seed = region fresh_bytes no_access;
  next_key_id = 0;
  new_seed_enabled = true;
  key_gen_enabled = false;
  keys_ops_enabled = false;
  password = [];
  keys_to_decrypt = ("", []);
  status = "";
}

abbrev old_session : KeyGenWidget
old_session = record new_session {
  keys = key_pair pk (some (region sk no_access)) ∷ [];
  current_index = some 0;
  master_seed = region seed_bytes no_access;
  password = 1 ∷ 2 ∷ 3 ∷ [];
}

load_seed_from_file-save_seed_to_file_example :
    (text : String) × (saved loaded : KeyGenWidget) × (save_seed_to_file simple_memory simple_blake2
        scratch_bytes [] en true old_session
      ≡ ok (some text, saved))
    × (load_seed_from_file simple_memory en fresh_bytes (some text) new_session ≡ ok loaded)
    × (loaded.master_seed ≡ region seed_bytes no_access)
    × (loaded.key_gen_enabled ≡ true)
    × (loaded.new_seed_enabled ≡ false)
    × (loaded.keys ≡ [])
    × (loaded.next_key_id ≡ 0)
unfolding all_bytes
load_seed_from_file-save_seed_to_file_example =
    load_seed_from_file-save_seed_to_file simple_memory simple_blake2 scratch_bytes [] fresh_bytes
      refl refl old_session new_session seed_bytes no_access refl refl
      (all_bytes-IsBytes seed_bytes refl)

abbrev simple_pair : List ℕ → List ℕ × List ℕ
simple_pair seed = (repeat_key (replicate 64 (first seed)), replicate 64 (first seed))

abbrev simple_derive : ℕ → ℕ → List ℕ → List ℕ → List ℕ
simple_derive size id context key = replicate size (id + first key)

abbrev simple_kdf : SodiumKdf simple_sign
simple_kdf = record {
  derive = simple_derive;
  seed_keypair = simple_pair;
  seed_keypair_length = λ seed. length-replicate 64 (first seed);
  seed_keypair_lem = λ seed. refl;
}

gen_key_pairs-load_seed_from_file_example :
    (text : String) × (generated saved loaded restored : KeyGenWidget) × (added : KeyListModel)
    × (gen_key_pairs simple_memory simple_sign simple_kdf 3 old_session ≡ ok generated)
    × (save_seed_to_file simple_memory simple_blake2 scratch_bytes [] en true generated
        ≡ ok (some text, saved))
    × (load_seed_from_file simple_memory en fresh_bytes (some text) new_session ≡ ok loaded)
    × (gen_key_pairs simple_memory simple_sign simple_kdf 3 loaded ≡ ok restored)
    × (length added ≡ 3)
    × (generated.keys ≡ old_session.keys ++ added)
    × (restored.keys ≡ added)
unfolding all_bytes
gen_key_pairs-load_seed_from_file_example =
    gen_key_pairs-load_seed_from_file simple_memory simple_sign simple_kdf simple_blake2
      scratch_bytes [] fresh_bytes 3 old_session new_session seed_bytes no_access refl refl refl
      refl (all_bytes-IsBytes seed_bytes refl) refl

decrypt_keys-dump_keys_encrypted_example :
    (text : String) × (after loaded final : KeyGenWidget) × (dump_keys_encrypted simple_base58
        simple_memory simple_aead simple_pwhash []
        (replicate 8 9)
        true
        old_session
      ≡ ok (some text, after))
    × (load_keys_from_file simple_base58 simple_memory simple_sign (some text) new_session
        ≡ ok loaded)
    × (decrypt_keys simple_base58 simple_memory simple_sign simple_aead simple_pwhash
          (record loaded { password = 1 ∷ 2 ∷ 3 ∷ [] })
        ≡ ok final)
    × (final.keys ≡ key_pair pk (some (region sk no_access)) ∷ [])
unfolding get_key_pair add_key_pair get_key_from_password
decrypt_keys-dump_keys_encrypted_example =
    decrypt_keys-dump_keys_encrypted simple_base58 simple_memory simple_sign simple_aead
      simple_pwhash [] (replicate 8 9) (replicate 32 7) old_session new_session sk no_access refl
      refl refl (omega arith) refl
