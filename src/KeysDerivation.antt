-- ===== src/KeysDerivation.antt =====
-- src/keysderivation.cpp: the master seed, its protection, and the pairs of keys derived from it. A
-- private key is its guarded region here.
use cscrypto.Base.{ℕ, ◌≡◌, refl, List, replicate, Outcome, ok, ◌>>=◌}
use cscrypto.Sodium.Memory.{
  Region, region, read_only, read_write, no_access, SodiumMemory, readable,
}
use cscrypto.Sodium.{kdf_keybytes}
use cscrypto.Sodium.Sign.{SodiumSign}
use cscrypto.Sodium.Kdf.{SodiumKdf, kdf_contextbytes, sign_seedbytes}

abbrev pub master_seed_size : ℕ
master_seed_size = kdf_keybytes

abbrev pub MasterSeed : Type 0
MasterSeed = Region

-- The context of a derivation, when it is left out.
abbrev pub no_context : List ℕ
no_context = replicate kdf_contextbytes 0

module _ (m : SodiumMemory) where
  unfoldable pub access_master_seed : MasterSeed → MasterSeed
  access_master_seed seed = m.mprotect_readonly seed

  unfoldable pub lock_master_seed : MasterSeed → MasterSeed
  lock_master_seed seed = m.mprotect_noaccess seed

  -- `random` is what `crypto_kdf_keygen` writes.
  unfoldable pub generate_master_seed : List ℕ → MasterSeed
  generate_master_seed random = m.mprotect_noaccess (region random read_write)

  -- The pair of keys, and the seed as it is left.
  unfoldable pub derive_key_pair :
      (s : SodiumSign)
      → SodiumKdf s
      → MasterSeed
      → ℕ
      → List ℕ
      → Outcome (List ℕ × Region × MasterSeed)
  derive_key_pair s kdf seed id ctx = do
    let opened = m.mprotect_readonly seed
    key ← readable opened
    let subkey = kdf.derive sign_seedbytes id ctx key
    let locked = m.mprotect_noaccess opened
    let (pk, sk) = kdf.seed_keypair subkey
    ok (pk, region sk no_access, locked)

  pub derive_key_pair_lem :
      (s : SodiumSign) (kdf : SodiumKdf s) (seed : MasterSeed) (id : ℕ) (ctx : List ℕ)
      → let pair = kdf.seed_keypair (kdf.derive 32 id ctx seed.bytes) in
        derive_key_pair s kdf seed id ctx
        ≡ ok (pair.0, region pair.1 no_access, region seed.bytes no_access)
  unfolding derive_key_pair
  derive_key_pair_lem s kdf seed id ctx =
      rw (m.readonly_lem seed, m.noaccess_lem (region seed.bytes read_only)) refl
