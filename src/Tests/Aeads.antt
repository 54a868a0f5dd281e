-- ===== src/Tests/Aeads.antt =====
-- A cipher that appends 16 zero bytes, and a hash of passwords that is always 7.
use cscrypto.Base.{
  ℕ, ◌+◌, ◌-◌, ◌≡◌, refl, ap, ◌∙◌, Option, some, List, ◌++◌, arith, length, length-append, take,
  take-append_at, replicate,
}
use cscrypto.Sodium.Aead.{SodiumAead, SodiumPwhash}

pub append_tag : List ℕ → List ℕ → List ℕ → Option (List ℕ)
append_tag message nonce key = some (message ++ replicate 16 0)

pub cut_tag : List ℕ → List ℕ → List ℕ → Option (List ℕ)
cut_tag cipher nonce key = some (take (length cipher - 16) cipher)

pub append_tag_lem :
    (message nonce key : List ℕ)
    → (cipher : List ℕ) × (append_tag message nonce key ≡ some cipher)
      × (length cipher ≡ length message + 16)
      × (cut_tag cipher nonce key ≡ some message)
unfolding append_tag cut_tag
append_tag_lem message nonce key =
    let zeros : List ℕ = replicate 16 0 in
    let total : length (message ++ zeros) ≡ length message + 16 = length-append message zeros in
    let cut : length (message ++ zeros) - 16 ≡ length message = omega (arith, total) in
    (
      message ++ zeros,
      refl,
      total,
      ap (λ (n : ℕ). some (take n (message ++ zeros))) cut
          ∙ ap some (take-append_at (length message) message zeros refl),
    )

abbrev pub simple_aead : SodiumAead
simple_aead = record { encrypt = append_tag; decrypt = cut_tag; encrypt_lem = append_tag_lem }

abbrev pub simple_pwhash : SodiumPwhash
simple_pwhash = record { pwhash = λ n passwd salt. some (replicate n 7) }
