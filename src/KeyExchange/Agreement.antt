-- ===== src/KeyExchange/Agreement.antt =====
-- What the functions of src/keyexchange.cpp give on private keys of 64 bytes: both ends agree.
use cscrypto.Base.{ℕ, ◌≡◌, refl, some, List, length, ok}
use cscrypto.Sodium.Memory.{Region, region, no_access, SodiumMemory}
use cscrypto.Sodium.Sign.{SodiumSign}
use cscrypto.Sodium.Kx.{SodiumKx}
use cscrypto.MainCryptoFunctions.{with_access_lem}
use cscrypto.KeyExchange.{
  exchange_keys, get_exchange_keys_from_private, public_part, get_pub_exchange_key,
  get_client_session_keys, get_server_session_keys,
}

module _ (s : SodiumSign) (k : SodiumKx) where
  exchange_keys-seeded :
      (sk seed epk esk : List ℕ)
      → s.sk_to_seed sk ≡ some seed
      → k.seed_keypair seed ≡ some (epk, esk)
      → exchange_keys s k sk ≡ some (epk, esk)
  unfolding exchange_keys
  exchange_keys-seeded sk seed epk esk seeded paired = rw (exchange_keys, seeded) paired

  -- The exchange keys of two private keys, and the session keys they give.
  pub exchange_keys-agree :
      (sk sk' : List ℕ)
      → length sk ≡ 64
      → length sk' ≡ 64
      → (epk esk epk' esk' rx tx : List ℕ) × (exchange_keys s k sk ≡ some (epk, esk))
        × (exchange_keys s k sk' ≡ some (epk', esk'))
        × (k.client epk esk epk' ≡ some (rx, tx))
        × (k.server epk' esk' epk ≡ some (tx, rx))
        × (length epk ≡ 32)
        × (length epk' ≡ 32)
  exchange_keys-agree sk sk' l l' =
      let (seed, seeded) = s.sk_to_seed_lem sk l in
      let (epk, esk, paired, size) = k.seed_keypair_lem seed in
      let (seed', seeded') = s.sk_to_seed_lem sk' l' in
      let (epk', esk', paired', size') = k.seed_keypair_lem seed' in
      let (rx, tx, clients, servers) = k.kx_lem seed seed' epk esk epk' esk' paired paired' in
      (
        epk,
        esk,
        epk',
        esk',
        rx,
        tx,
        exchange_keys-seeded sk seed epk esk seeded paired,
        exchange_keys-seeded sk' seed' epk' esk' seeded' paired',
        clients,
        servers,
        size,
        size',
      )

module _ (m : SodiumMemory) (s : SodiumSign) (k : SodiumKx) where
  pub get_pub_exchange_key_lem :
      (key : Region) (epk esk : List ℕ)
      → exchange_keys s k key.bytes ≡ some (epk, esk)
      → get_pub_exchange_key m s k key ≡ ok (some epk, region key.bytes no_access)
  unfolding get_pub_exchange_key get_exchange_keys_from_private public_part
  get_pub_exchange_key_lem key epk esk e = rw (with_access_lem m key (exchange_keys s k), e) refl

  pub get_client_session_keys_lem :
      (key : Region) (epk esk server_pk : List ℕ)
      → exchange_keys s k key.bytes ≡ some (epk, esk)
      → get_client_session_keys m s k key server_pk
        ≡ ok (k.client epk esk server_pk, region key.bytes no_access)
  unfolding get_client_session_keys get_exchange_keys_from_private
  get_client_session_keys_lem key epk esk server_pk e =
      rw (with_access_lem m key (exchange_keys s k), e) refl

  pub get_server_session_keys_lem :
      (key : Region) (epk esk client_pk : List ℕ)
      → exchange_keys s k key.bytes ≡ some (epk, esk)
      → get_server_session_keys m s k key client_pk
        ≡ ok (k.server epk esk client_pk, region key.bytes no_access)
  unfolding get_server_session_keys get_exchange_keys_from_private
  get_server_session_keys_lem key epk esk client_pk e =
      rw (with_access_lem m key (exchange_keys s k), e) refl

  -- Two ends that exchange their public keys get the same two session keys, each in the role of the
  -- other: the client receives with what the server sends with, and the other way round. No function
  -- fails or faults, on private keys of 64 bytes under any protection, and both are locked after.
  pub get_client_session_keys-get_server_session_keys :
      (client_key server_key : Region)
      → length client_key.bytes ≡ 64
      → length server_key.bytes ≡ 64
      → (client_pk server_pk rx tx : List ℕ) × (get_pub_exchange_key m s k client_key
          ≡ ok (some client_pk, region client_key.bytes no_access))
        × (get_pub_exchange_key m s k server_key
            ≡ ok (some server_pk, region server_key.bytes no_access))
        × (get_client_session_keys m s k client_key server_pk
            ≡ ok (some (rx, tx), region client_key.bytes no_access))
        × (get_server_session_keys m s k server_key client_pk
            ≡ ok (some (tx, rx), region server_key.bytes no_access))
  get_client_session_keys-get_server_session_keys client_key server_key l l' =
      let (epk, esk, epk', esk', rx, tx, e, e', clients, servers, size, size') =
        exchange_keys-agree s k client_key.bytes server_key.bytes l l' in
      (
        epk,
        epk',
        rx,
        tx,
        get_pub_exchange_key_lem client_key epk esk e,
        get_pub_exchange_key_lem server_key epk' esk' e',
        rw (get_client_session_keys_lem client_key epk esk epk' e, clients) refl,
        rw (get_server_session_keys_lem server_key epk' esk' epk e', servers) refl,
      )
