-- ===== src/KeyGenWidget/Restore.antt =====
-- The pairs of keys of a seed, generated again in another session from the saved seed.
use cscrypto.Base.{
  ℕ, zero, suc, ◌+◌, ◌%◌, ◌^◌, ◌≡◌, refl, sym, ap, ◌∙◌, true, some, List, [], ◌∷◌, ◌++◌, length,
  IsBytes, Outcome, ok, ◌>>=◌,
}
use mathlib.Core.List.{append-nil, append_assoc}
use Prim.Native.String.{String}
use cscrypto.Blake2.{Blake2}
use cscrypto.Dictionary.En.{en}
use cscrypto.Sodium.Memory.{Access, Region, region, no_access, SodiumMemory}
use cscrypto.Sodium.Sign.{SodiumSign}
use cscrypto.Sodium.Kdf.{SodiumKdf}
use cscrypto.KeyListModel.{key_pair, KeyListModel, add_key_pair}
use cscrypto.KeysDerivation.{derive_key_pair, derive_key_pair_lem, no_context}
use cscrypto.KeyGenWidget.{KeyGenWidget, gen_key_pair, save_seed_to_file, load_seed_from_file}
use cscrypto.KeyGenWidget.SeedFile.{load_seed_from_file-save_seed_to_file}

module _ (m : SodiumMemory) (s : SodiumSign) (kdf : SodiumKdf s) where
  -- So many clicks on the button for a pair of keys.
  abbrev pub gen_key_pairs : ℕ → KeyGenWidget → Outcome KeyGenWidget
  gen_key_pairs zero w = ok w
  gen_key_pairs (suc n) w = gen_key_pair m s kdf w >>= gen_key_pairs n

  -- The pairs of keys of a seed, from an identifier on.
  abbrev pub pairs_of : List ℕ → ℕ → ℕ → KeyListModel
  pairs_of seed id zero = []
  pairs_of seed id (suc n) =
      let pair = kdf.seed_keypair (kdf.derive 32 id no_context seed) in
      key_pair pair.0 (some (region pair.1 no_access)) ∷ pairs_of seed ((id + 1) % 2 ^ 64) n

  pairs_of-length : (seed : List ℕ) (n id : ℕ) → length (pairs_of seed id n) ≡ n
  pairs_of-length seed zero id = refl
  pairs_of-length seed (suc n) id = ap suc (pairs_of-length seed n ((id + 1) % 2 ^ 64))

  gen_key_pair_lem :
      (w : KeyGenWidget) (seed : List ℕ) (a : Access)
      → w.master_seed ≡ region seed a
      → gen_key_pair m s kdf w
        ≡ ok (record w {
          keys = w.keys ++ pairs_of seed w.next_key_id 1;
          master_seed = region seed no_access;
          next_key_id = (w.next_key_id + 1) % 2 ^ 64;
        })
  unfolding gen_key_pair add_key_pair
  gen_key_pair_lem w seed a at =
      let derived =
        ap (λ (x : Region). derive_key_pair m s kdf x w.next_key_id no_context) at
        ∙ derive_key_pair_lem m s kdf (region seed a) w.next_key_id no_context in
      rw derived refl

  pub gen_key_pairs_lem :
      (n : ℕ) (w : KeyGenWidget) (seed : List ℕ) (a : Access)
      → w.master_seed ≡ region seed a
      → (w' : KeyGenWidget) × (gen_key_pairs n w ≡ ok w')
        × (w'.keys ≡ w.keys ++ pairs_of seed w.next_key_id n)
        × ((b : Access) × (w'.master_seed ≡ region seed b))
  gen_key_pairs_lem zero w seed a at = (w, refl, sym (append-nil w.keys), (a, at))
  gen_key_pairs_lem (suc n) w seed a at =
      let next : KeyGenWidget = record w {
        keys = w.keys ++ pairs_of seed w.next_key_id 1;
        master_seed = region seed no_access;
        next_key_id = (w.next_key_id + 1) % 2 ^ 64;
      } in
      let (last, ran, keys, seed_kept) = gen_key_pairs_lem n next seed no_access refl in
      (
        last,
        rw (gen_key_pair_lem w seed a at) ran,
        keys ∙ append_assoc w.keys (pairs_of seed w.next_key_id 1) _,
        seed_kept,
      )

  -- A session with a seed of 32 bytes generates `n` pairs of keys and saves its seed to a file.
  -- A tab of any other session whose next identifier is the one that the first session began
  -- with loads the seed from that file, and generates `n` pairs: where the buffers have the
  -- sizes that the source gives them, nothing faults, and both add the same `n` pairs, in the
  -- same order, with the same private keys.
  pub gen_key_pairs-load_seed_from_file :
      (b : Blake2) (scratch garbage fresh : List ℕ) (n : ℕ) (w session : KeyGenWidget)
      (bytes : List ℕ) (a : Access)
      → length scratch ≡ 33
      → length fresh ≡ 32
      → w.master_seed ≡ region bytes a
      → length bytes ≡ 32
      → IsBytes bytes
      → session.next_key_id ≡ w.next_key_id
      → (text : String) × (generated saved loaded restored : KeyGenWidget) × (added : KeyListModel)
        × (gen_key_pairs n w ≡ ok generated)
        × (save_seed_to_file m b scratch garbage en true generated ≡ ok (some text, saved))
        × (load_seed_from_file m en fresh (some text) session ≡ ok loaded)
        × (gen_key_pairs n loaded ≡ ok restored)
        × (length added ≡ n)
        × (generated.keys ≡ w.keys ++ added)
        × (restored.keys ≡ session.keys ++ added)
  gen_key_pairs-load_seed_from_file b scratch garbage fresh n w session bytes a sl fl at l small
        same =
      let (generated, ran, keys, (a', at')) = gen_key_pairs_lem n w bytes a at in
      let (text, saved, loaded, saves, loads, seed, _, _, kept, next) =
        load_seed_from_file-save_seed_to_file m b scratch garbage fresh sl fl generated session
          bytes a' at' l small in
      let (restored, ran', keys', _) = gen_key_pairs_lem n loaded bytes no_access seed in
      (
        text,
        generated,
        saved,
        loaded,
        restored,
        pairs_of bytes w.next_key_id n,
        ran,
        saves,
        loads,
        ran',
        pairs_of-length bytes n w.next_key_id,
        keys,
        keys'
            ∙ ap (λ (x : KeyListModel). x ++ pairs_of bytes loaded.next_key_id n) kept
            ∙ ap (λ (x : ℕ). session.keys ++ pairs_of bytes x n) (next ∙ same),
      )
