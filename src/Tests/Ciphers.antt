-- ===== src/Tests/Ciphers.antt =====
-- Data and files, encrypted by a box and a stream that only put the code in front of the message.
use cscrypto.Base.{
  ℕ, suc, ◌+◌, ◌<◌, ◌≡◌, refl, Bool, true, false, Option, none, some, List, [], ◌∷◌, ◌++◌, arith,
  ltb, ◌==◌, ◌||◌, not, if◌then◌else◌, length, replicate, length-replicate, get_or, drop, take, ok,
  le→not_ltb, lt→ltb,
}
use cscrypto.Sodium.Memory.{region, no_access, simple_memory}
use cscrypto.Sodium.SecretBox.{SecretBox}
use cscrypto.Sodium.SecretStream.{SecretStream}
use cscrypto.Cipher.{
  CipherKey, encrypt_data, decrypt_data, FileSystem, FileResult, write_file, open_target,
  encrypt_file, decrypt_file,
}
use cscrypto.Cipher.Data.{decrypt_data-encrypt_data}
use cscrypto.Cipher.RoundTrip.{decrypt_file-encrypt_file, decrypt_file-cut}
use cscrypto.Cipher.Files.{sealed_file, encrypt_file-opened, write_file-same}
use cscrypto.Cipher.Ends.{key_after, encrypt_file_lem, decrypt_file_lem, decrypt_file-missing}

easy_box : List ℕ → List ℕ → List ℕ → List ℕ
easy_box message nonce key = replicate 16 0 ++ message

easy_box-length :
    (message nonce key : List ℕ) → length (easy_box message nonce key) ≡ length message + 16
unfolding easy_box
easy_box-length message nonce key = omega arith

open_box : List ℕ → List ℕ → List ℕ → List ℕ → Bool × List ℕ
open_box buffer cipher nonce key = (true, drop 16 cipher)

open_box_lem :
    (buffer message nonce key : List ℕ)
    → length buffer ≡ length message
    → open_box buffer (easy_box message nonce key) nonce key ≡ (true, message)
unfolding open_box easy_box
open_box_lem buffer message nonce key h = refl

abbrev simple_box : SecretBox
simple_box = record {
  easy = easy_box;
  open_easy = open_box;
  easy_length = easy_box-length;
  open_easy_lem = open_box_lem;
}

-- A chunk carries its number, which is checked, 15 zeros, the tag and the message.
pub push_chunk : ℕ → List ℕ → ℕ → List ℕ
push_chunk n message tag = n ∷ replicate 15 0 ++ (tag ∷ message)

pub push_chunk-length :
    (n : ℕ) (message : List ℕ) (tag : ℕ) → length (push_chunk n message tag) ≡ length message + 17
unfolding push_chunk
push_chunk-length n message tag = omega arith

pub pull_chunk : ℕ → List ℕ → Option (ℕ × List ℕ × ℕ)
pull_chunk n chunk =
    if ltb (length chunk) 17 || not (get_or chunk 0 0 == n)
    then none
    else some (suc n, drop 17 chunk, get_or chunk 16 0)

pub pull_chunk-push :
    (n : ℕ) (message : List ℕ) (tag : ℕ)
    → pull_chunk n (push_chunk n message tag) ≡ some (suc n, message, tag)
unfolding pull_chunk push_chunk
pull_chunk-push n message tag =
    rw
      (le→not_ltb (length (push_chunk n message tag)) 17
        (omega (arith, push_chunk-length n message tag)))
      (ground arith)

pub pull_chunk-short : (n : ℕ) (chunk : List ℕ) → length chunk < 17 → pull_chunk n chunk ≡ none
unfolding pull_chunk
pull_chunk-short n chunk h = rw (lt→ltb (length chunk) 17 h) refl

pub pull_chunk-synced :
    (p q : ℕ) (message : List ℕ) (tag : ℕ)
    → p ≡ q
    → (q' : ℕ) × (pull_chunk q (push_chunk p message tag) ≡ some (q', message, tag)) × (suc p ≡ q')
pull_chunk-synced p q message tag s = (suc p, rw (← s) (pull_chunk-push p message tag), refl)

abbrev pub simple_stream : SecretStream
simple_stream = record {
  PushState = ℕ;
  PullState = ℕ;
  init_push = λ random key. (0, replicate 24 9);
  push = λ p message tag. (suc p, push_chunk p message tag);
  init_pull = λ header key. some 0;
  pull = pull_chunk;
  Synced = λ p q. p ≡ q;
  header_length = λ random key. refl;
  init_lem = λ random key. (0, refl, refl);
  push_length = push_chunk-length;
  pull-push = pull_chunk-synced;
  pull_short = pull_chunk-short;
}

abbrev nonce_bytes : List ℕ
nonce_bytes = replicate 24 3

abbrev key_bytes : List ℕ
key_bytes = replicate 32 8

abbrev locked_key : CipherKey
locked_key = region key_bytes no_access

-- One source of 5000 bytes, and three files that can be written.
abbrev pub long_file : List ℕ
long_file = replicate 5000 7

abbrev pub source_files : FileSystem
source_files = record {
  contents = λ name. if name == 0 then some long_file else none;
  writable = λ name. ltb 0 name;
}

decrypt_file-encrypt_file_example :
    (enc : FileSystem) × (dec : FileSystem) × (encrypt_file simple_memory simple_stream []
        source_files 1 0 locked_key
      ≡ ok (record { done = true; files = enc; key = locked_key }))
    × (decrypt_file simple_memory simple_stream (replicate 24 0) enc 2 1 locked_key
        ≡ ok (record { done = true; files = dec; key = locked_key }))
    × (dec.contents 2 ≡ some long_file)
decrypt_file-encrypt_file_example =
    decrypt_file-encrypt_file simple_memory simple_stream [] (replicate 24 0) long_file source_files
      2 1 0 locked_key refl refl refl (ground arith) (ground arith) refl

decrypt_data-encrypt_data_example :
    (sealed : List ℕ) × (encrypt_data simple_memory simple_box nonce_bytes
        (1 ∷ 2 ∷ 3 ∷ [])
        locked_key
      ≡ ok (sealed, locked_key))
    × (decrypt_data simple_memory simple_box (7 ∷ []) sealed locked_key
        ≡ ok (record { done = true; target = 1 ∷ 2 ∷ 3 ∷ []; key = locked_key }))
decrypt_data-encrypt_data_example =
    decrypt_data-encrypt_data simple_memory simple_box nonce_bytes (1 ∷ 2 ∷ 3 ∷ []) (7 ∷ [])
      locked_key refl

encrypt_file_lem_example :
    (r : FileResult) × (encrypt_file simple_memory simple_stream [] source_files 1 0 locked_key
      ≡ ok r)
    × (r.done ≡ true)
    × (r.files.contents 0 ≡ some long_file)
    × (r.key ≡ locked_key)
unfolding key_after
encrypt_file_lem_example =
    encrypt_file_lem simple_memory simple_stream [] source_files 1 0 0 locked_key (ground arith)

decrypt_file_lem_example :
    (r : FileResult) × (decrypt_file simple_memory simple_stream [] source_files 1 0 locked_key
      ≡ ok r)
    × (r.files.contents 0 ≡ some long_file)
    × (r.key ≡ locked_key)
unfolding key_after
decrypt_file_lem_example =
    decrypt_file_lem simple_memory simple_stream [] source_files 1 0 0 locked_key (ground arith)

-- What a file held is lost when a missing source, number 9, is to be encrypted into it.
abbrev old_files : FileSystem
old_files = write_file source_files 1 (1 ∷ 2 ∷ 3 ∷ [])

decrypt_file-missing_example :
    (encrypt_file simple_memory simple_stream [] old_files 1 9 locked_key
      ≡ decrypt_file simple_memory simple_stream [] old_files 1 9 locked_key)
    × (r : FileResult) × (decrypt_file simple_memory simple_stream [] old_files 1 9 locked_key
        ≡ ok r)
    × (r.done ≡ false)
    × (r.key ≡ locked_key)
    × (r.files.contents 1 ≡ some [])
decrypt_file-missing_example =
    decrypt_file-missing simple_memory simple_stream [] [] old_files 1 9 locked_key refl refl

-- The encrypted file, and a file system with the part of it that ends behind the first chunk.
abbrev encrypted_bytes : List ℕ
encrypted_bytes = sealed_file simple_memory simple_stream [] long_file key_bytes

abbrev encrypted_result : FileResult
encrypted_result = record {
  done = true;
  files = write_file (open_target source_files 1) 1 encrypted_bytes;
  key = locked_key;
}

abbrev cut_files : FileSystem
cut_files = write_file source_files 3 (take 4137 encrypted_bytes)

decrypt_file-cut_example :
    decrypt_file simple_memory simple_stream (replicate 24 0) cut_files 2 3 locked_key
    ≡ ok (record {
      done = false;
      files = write_file (open_target cut_files 2) 2 (take 4096 long_file);
      key = locked_key;
    })
decrypt_file-cut_example =
    decrypt_file-cut simple_memory simple_stream 1 [] (replicate 24 0) long_file encrypted_bytes
      source_files cut_files 1 0 2 3 locked_key encrypted_result refl refl (ground arith)
      (encrypt_file-opened simple_memory simple_stream [] source_files 1 0 long_file locked_key refl
        refl (ground arith))
      (write_file-same (open_target source_files 1) 1 encrypted_bytes) refl refl (ground arith) refl
      (omega (arith, length-replicate {A = ℕ} 5000 7))
