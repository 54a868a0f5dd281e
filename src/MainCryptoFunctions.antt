-- ===== src/MainCryptoFunctions.antt =====
-- src/maincryptofunctions.cpp and include/cscrypto/cryptoconstants.hpp. A private key is its guarded
-- region here: no function touches the counter of references.
use cscrypto.Base.{ℕ, ◌≡◌, refl, Bool, List, none, some, Outcome, ok, ◌>>=◌}
use cscrypto.Sodium.Memory.{Region, region, no_access, read_only, SodiumMemory, readable}
use cscrypto.Sodium.Sign.{SodiumSign}
use cscrypto.Blake2.{Blake2}

abbrev pub hash_size : ℕ
hash_size = 32

abbrev pub public_key_size : ℕ
public_key_size = 32

abbrev pub private_key_size : ℕ
private_key_size = 64

abbrev pub signature_size : ℕ
signature_size = 64

-- `calculateHash`: what `blake2s` reports is not looked at, so after a failure the result is what
-- the uninitialised `hash` held (`garbage`).
unfoldable pub calculate_hash : Blake2 → List ℕ → List ℕ → List ℕ → List ℕ
calculate_hash b garbage message key = elim (b.blake2s message key) [ none ↦ garbage | some h ↦ h ]

module _ (m : SodiumMemory) where
  -- The life of the guard that `privateKey.access()` returns: the region is readable, what the
  -- function does with its bytes is `body`, and the destructor locks the region.
  unfoldable pub with_access {ℓ} : {A : Type ℓ} → Region → (List ℕ → A) → Outcome (A × Region)
  with_access key body = do
    let opened = m.mprotect_readonly key
    key_bytes ← readable opened
    ok (body key_bytes, m.mprotect_noaccess opened)

  pub with_access_lem {ℓ} :
      {A : Type ℓ} (key : Region) (body : List ℕ → A)
      → with_access key body ≡ ok (body key.bytes, region key.bytes no_access)
  unfolding with_access
  with_access_lem key body =
      rw (m.readonly_lem key, m.noaccess_lem (region key.bytes read_only)) refl

  module _ (s : SodiumSign) where
    unfoldable pub get_matching_public : Region → Outcome (List ℕ × Region)
    get_matching_public key = with_access key s.sk_to_pk

    unfoldable pub generate_signature : Region → List ℕ → Outcome (List ℕ × Region)
    generate_signature key data_bytes = with_access key (s.sign data_bytes)

unfoldable pub verify_signature : SodiumSign → (signature public_key data_bytes : List ℕ) → Bool
verify_signature s signature public_key data_bytes = s.verify signature data_bytes public_key
