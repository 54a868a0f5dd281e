-- ===== src/Tests/Exchanges.antt =====
-- Key exchanges with signatures and session keys that are sums of first bytes.
use Prim.Native.String.{String}
use cscrypto.Base.{
  ◌++◌, ◌&&◌, ◌↔◌, inl, inr, ℕ, ◌+◌, ◌*◌, ◌≡◌, ◌∙◌, refl, sym, ap, Bool, true, false, Option, none,
  some, List, [], ◌∷◌, arith, ◌==◌, if◌then◌else◌, length, replicate, get_or, ok,
}
use cscrypto.Sodium.Memory.{Region, region, no_access, simple_memory}
use cscrypto.Sodium.Sign.{SodiumSign}
use cscrypto.Sodium.Kx.{SodiumKx}
use cscrypto.KeyExchange.{exchange_keys}
use cscrypto.RequestMaster.{
  RequestMaster, Database, Validated, form, validate, find_sender, is_trusted, signals,
}
use cscrypto.RequestMaster.Verdict.{IsValid, validate_lem}
use cscrypto.RequestMaster.Exchange.{IsFresh, Trusts, validate-form}

pub first : List ℕ → ℕ
first xs = get_or xs 0 0

pub repeat_key : List ℕ → List ℕ
repeat_key sk = replicate 32 (first sk)

pub sum_sign : List ℕ → List ℕ → List ℕ
sum_sign message sk = replicate 64 (first sk + length message)

pub sum_verify : List ℕ → List ℕ → List ℕ → Bool
sum_verify sig message pk = first sig == first pk + length message

pub sum_verify-sign :
    (message sk : List ℕ)
    → length sk ≡ 64
    → sum_verify (sum_sign message sk) message (repeat_key sk) ≡ true
unfolding sum_verify sum_sign repeat_key first
sum_verify-sign message sk l = ground arith

pub repeat_key-length : (sk : List ℕ) → length (repeat_key sk) ≡ 32
unfolding repeat_key
repeat_key-length sk = refl

pub sum_sign-length : (message sk : List ℕ) → length (sum_sign message sk) ≡ 64
unfolding sum_sign
sum_sign-length message sk = refl

abbrev pub simple_sign : SodiumSign
simple_sign = record {
  sk_to_pk = repeat_key;
  sk_to_seed = λ sk. some (first sk ∷ []);
  sign = sum_sign;
  verify = sum_verify;
  sk_to_pk_length = repeat_key-length;
  sk_to_seed_lem = λ sk l. (first sk ∷ [], refl);
  sign_length = sum_sign-length;
  verify-sign = sum_verify-sign;
}

pub seed_pair : List ℕ → Option (List ℕ × List ℕ)
seed_pair seed = some (replicate 32 (first seed), first seed ∷ [])

first_public : Option (List ℕ × List ℕ) → ℕ
first_public none = 0
first_public (some (pk, sk)) = first pk

first_secret : Option (List ℕ × List ℕ) → ℕ
first_secret none = 0
first_secret (some (pk, sk)) = first sk

pub client_sums : List ℕ → List ℕ → List ℕ → Option (List ℕ × List ℕ)
client_sums pk sk pk' = some ((first sk + 2 * first pk') ∷ [], (2 * first sk + first pk') ∷ [])

pub server_sums : List ℕ → List ℕ → List ℕ → Option (List ℕ × List ℕ)
server_sums pk sk pk' = some ((2 * first pk' + first sk) ∷ [], (first pk' + 2 * first sk) ∷ [])

pub sums_lem :
    (seed seed' pk sk pk' sk' : List ℕ)
    → seed_pair seed ≡ some (pk, sk)
    → seed_pair seed' ≡ some (pk', sk')
    → (rx : List ℕ) × (tx : List ℕ) × (client_sums pk sk pk' ≡ some (rx, tx))
      × (server_sums pk' sk' pk ≡ some (tx, rx))
unfolding client_sums server_sums seed_pair first_public first_secret first
sums_lem seed seed' pk sk pk' sk' e e' =
    let same : first sk ≡ first pk = sym (ap first_secret e) ∙ ap first_public e in
    let same' : first sk' ≡ first pk' = sym (ap first_secret e') ∙ ap first_public e' in
    ((first sk + 2 * first pk') ∷ [], (2 * first sk + first pk') ∷ [], refl, rw (same, same') refl)

pub seed_pair_lem :
    (seed : List ℕ)
    → (pk : List ℕ) × (sk : List ℕ) × (seed_pair seed ≡ some (pk, sk)) × (length pk ≡ 32)
unfolding seed_pair
seed_pair_lem seed = (replicate 32 (first seed), first seed ∷ [], refl, refl)

abbrev pub simple_kx : SodiumKx
simple_kx = record {
  seed_keypair = seed_pair;
  client = client_sums;
  server = server_sums;
  seed_keypair_lem = seed_pair_lem;
  kx_lem = sums_lem;
}

-- Private keys that begin with 1 and with 2, and their names in the databases.
abbrev client_key : Region
client_key = region (replicate 64 1) no_access

abbrev server_key : Region
server_key = region (replicate 64 2) no_access

pub key_name : List ℕ → String
key_name xs = if first xs == 1 then "client" else (if first xs == 2 then "server" else "session")

abbrev pub fresh_master : Bool → ℕ → RequestMaster
fresh_master side n = record {
  sender_pub_key = replicate 32 0;
  exchange_pub_key = replicate 32 0;
  signature = replicate 64 0;
  own_pk = replicate 32 n;
  own_sk = region (replicate 64 n) no_access;
  server_side = side;
  valid_own_keys = true;
  db_connection_established = false;
  connected = false;
}

abbrev pub client_master : RequestMaster
client_master = fresh_master false 1

abbrev pub server_master : RequestMaster
server_master = fresh_master true 2

abbrev pub known_keys : Database
known_keys = record {
  opens = true;
  public_keys = some (("server", "yes") ∷ ("other", "no") ∷ ("client", "yes") ∷ []);
}

pub client-IsFresh : IsFresh key_name simple_memory simple_sign simple_kx client_master
unfolding repeat_key first
client-IsFresh = (refl, refl, refl, refl)

pub server-IsFresh : IsFresh key_name simple_memory simple_sign simple_kx server_master
unfolding repeat_key first
server-IsFresh = (refl, refl, refl, refl)

pub client-Trusts : Trusts key_name simple_memory simple_sign simple_kx known_keys server_master
unfolding key_name first find_sender is_trusted
client-Trusts = (refl, refl)

pub server-Trusts : Trusts key_name simple_memory simple_sign simple_kx known_keys client_master
unfolding key_name first find_sender is_trusted
server-Trusts = (refl, refl)

validate-form_example :
    (query reply : List ℕ) × (asked accepted served : RequestMaster) × (done : Validated) × (send
      receive : String)
    × (form key_name simple_memory simple_sign simple_kx 0 client_master
        ≡ ok (record { request = 0 ∷ query; master = asked; emitted = [] }))
    × (validate key_name simple_memory simple_sign simple_kx known_keys 0 query server_master
        ≡ ok (record { valid = true; master = accepted; emitted = [] }))
    × (form key_name simple_memory simple_sign simple_kx 1 accepted
        ≡ ok (record { request = 1 ∷ reply; master = served; emitted = (send, receive) ∷ [] }))
    × (validate key_name simple_memory simple_sign simple_kx known_keys 1 reply asked ≡ ok done)
    × (done.valid ≡ true)
    × (done.emitted ≡ (receive, send) ∷ [])
    × (length query ≡ 128)
    × (length reply ≡ 128)
validate-form_example =
    validate-form key_name simple_memory simple_sign simple_kx client_master server_master
      known_keys known_keys client-IsFresh server-IsFresh refl refl client-Trusts server-Trusts

-- A reply of the server that the client finds valid.
abbrev reply_bytes : List ℕ
reply_bytes = replicate 64 2 ++ replicate 64 67

validate_lem_example :
    (epk esk : List ℕ) × (r : Validated) × (exchange_keys simple_sign simple_kx (replicate 64 1)
      ≡ some (epk, esk))
    × (validate key_name simple_memory simple_sign simple_kx known_keys 1 reply_bytes client_master
        ≡ ok r)
    × ((r.valid ≡ true)
        ↔ IsValid key_name simple_memory simple_sign simple_kx known_keys 1 reply_bytes
            client_master)
    × (r.emitted
        ≡ (if r.valid && true then signals key_name (client_sums epk esk (replicate 32 2)) else []))
validate_lem_example =
    validate_lem key_name simple_memory simple_sign simple_kx known_keys 1 reply_bytes client_master
      refl (omega arith)

reply_bytes-IsValid :
    IsValid key_name simple_memory simple_sign simple_kx known_keys 1 reply_bytes client_master
unfolding key_name first sum_verify
reply_bytes-IsValid = (refl, omega arith, refl, inr (refl, refl), inl (refl, refl), refl)
