-- ===== src/Cipher.antt =====
-- src/cipher.cpp with a symmetric key: data in memory and whole files.
pub mod Data
pub mod Sealing
pub mod Chunks
pub mod Sealed
pub mod Files
pub mod RoundTrip
pub mod Ends
pub mod Key
use cscrypto.Base.{
  ℕ, zero, suc, ◌+◌, ◌-◌, Bool, true, false, not, ◌&&◌, ◌||◌, Option, none, some, List, [], ◌∷◌,
  ◌++◌, ltb, ◌==◌, if◌then◌else◌, length, take, drop, replicate, is_some, Outcome, ok, fault, ◌>>=◌,
  copy_to, from_option, ◌/◌,
}
use cscrypto.Sodium.Memory.{Region, SodiumMemory, readable}
use cscrypto.Sodium.SecretBox.{SecretBox, secretbox_macbytes, secretbox_noncebytes}
use cscrypto.Sodium.SecretStream.{
  SecretStream, stream_abytes, stream_headerbytes, tag_message, tag_final,
}

abbrev pub CipherKey : Type 0
CipherKey = Region

abbrev pub chunk_size : ℕ
chunk_size = 4096

-- `std::vector::resize`: cut, or filled up with zeros.
unfoldable pub resize : List ℕ → ℕ → List ℕ
resize xs n = take n xs ++ replicate (n - length xs) 0

pub record Decrypted : Type 0 where
  pub done : Bool
  pub target : List ℕ
  pub key : CipherKey

module _ (m : SodiumMemory) (box : SecretBox) where
  -- `encryptData(source, CipherKey&)`: the result and the key as it is left. `nonce` is what
  -- `randombytes_buf` gives.
  unfoldable pub encrypt_data : (nonce source : List ℕ) → CipherKey → Outcome (List ℕ × CipherKey)
  encrypt_data nonce source key = do
    let res = replicate (length source + secretbox_macbytes + length nonce) 0
    res' ← copy_to res 0 nonce
    let opened = m.mprotect_readonly key
    key_bytes ← readable opened
    res'' ← copy_to res' (length nonce) (box.easy source nonce key_bytes)
    ok (res'', m.mprotect_noaccess opened)

  -- `decryptData(target, source, CipherKey&)`.
  unfoldable pub decrypt_data : (target source : List ℕ) → CipherKey → Outcome Decrypted
  decrypt_data target source key =
      if ltb (length source) (secretbox_macbytes + secretbox_noncebytes)
      then ok (record { done = false; target = target; key = key })
      else (do
        let nonce = take secretbox_noncebytes source
        let target' = resize target (length source - secretbox_macbytes - secretbox_noncebytes)
        let opened = m.mprotect_readonly key
        key_bytes ← readable opened
        let (done, target'') =
            box.open_easy target' (drop secretbox_noncebytes source) nonce key_bytes
        ok (record { done = done; target = target''; key = m.mprotect_noaccess opened }))

-- Files by name.
abbrev pub FileName : Type 0
FileName = ℕ

pub record FileSystem : Type 0 where
  pub contents : FileName → Option (List ℕ)
  pub writable : FileName → Bool

-- What an open file gives to a reader.
abbrev pub bytes_of : Option (List ℕ) → List ℕ
bytes_of none = []
bytes_of (some bytes) = bytes

-- What the target holds after writes.
abbrev pub write_file : FileSystem → FileName → List ℕ → FileSystem
write_file fs name bytes = record fs {
  contents = λ other. if name == other then some bytes else fs.contents other;
}

-- `fopen(name, "wb")` empties the file, if it can be opened.
unfoldable pub open_target : FileSystem → FileName → FileSystem
open_target fs name = if fs.writable name then write_file fs name [] else fs

pub record FileResult : Type 0 where
  pub done : Bool
  pub files : FileSystem
  pub key : CipherKey

-- How the loop of `decryptFile` ends, with what it has written by then.
pub data Ending : Type 0 where
  accepted : List ℕ → Ending
  rejected : List ℕ → Ending
  out_of_fuel : Ending

module _ (stream : SecretStream) where
  open stream use {PushState, PullState, init_push, push, init_pull, pull}

  -- The `do … while` loop of `encryptFile`: `rest` is not read yet, `out` is written. `feof` is
  -- true once a read was short. `none` means that the fuel ran out.
  unfoldable pub encrypt_loop : ℕ → PushState → (rest out : List ℕ) → Option (List ℕ)
  encrypt_loop zero st rest out = none
  encrypt_loop (suc fuel) st rest out =
      let plain = take chunk_size rest in
      let eof = ltb (length plain) chunk_size in
      let (st', encrypted) = push st plain (if eof then tag_final else tag_message) in
      let more = encrypt_loop fuel st' (drop chunk_size rest) (out ++ encrypted) in
      if eof then some (out ++ encrypted) else more

  -- The loop of `decryptFile`.
  unfoldable pub decrypt_loop : ℕ → PullState → (rest out : List ℕ) → Ending
  decrypt_loop zero st rest out = out_of_fuel
  decrypt_loop (suc fuel) st rest out =
      let encrypted = take (chunk_size + stream_abytes) rest in
      let eof = ltb (length encrypted) (chunk_size + stream_abytes) in
      elim (pull st encrypted) [
        | none ↦ rejected out
        | some (st', plain, tag) ↦
            let more =
              decrypt_loop fuel st' (drop (chunk_size + stream_abytes) rest) (out ++ plain) in
            if tag == tag_final && not eof
            then rejected out
            else (if eof then accepted (out ++ plain) else more)
      ]

module _ (m : SodiumMemory) (stream : SecretStream) where
  open stream use {init_push, init_pull}

  -- `encryptFile` once both files are open: `random` is what the header is drawn from, and
  -- `length bytes / chunk_size + 1` reads reach the end of the source.
  unfoldable pub encrypt_opened :
      (random : List ℕ)
      → FileSystem
      → (target : FileName) → (bytes : List ℕ) → CipherKey
      → Outcome FileResult
  encrypt_opened random fs target bytes key = do
    let opened = m.mprotect_readonly key
    key_bytes ← readable opened
    let (st, header) = init_push random key_bytes
    out ← from_option (encrypt_loop stream (length bytes / chunk_size + 1) st bytes header)
    ok (record { done = true; files = write_file fs target out; key = m.mprotect_noaccess opened })

  -- `encryptFile`: the source is opened first and read only when the target is open, so that a source
  -- that is also the target is empty by then. What is written stays in a buffer and is not read back.
  unfoldable pub encrypt_file :
      (random : List ℕ) → FileSystem → (target source : FileName) → CipherKey → Outcome FileResult
  encrypt_file random fs target source key =
      let fs' = open_target fs target in
      let refused = ok (record { done = false; files = fs'; key = key }) in
      elim (fs.contents source) [
        | none ↦ refused
        | some there ↦
            if fs.writable target
            then encrypt_opened random fs' target (bytes_of (fs'.contents source)) key
            else refused
      ]

  -- The end of `decryptFile`: the files are closed and the key is locked.
  unfoldable pub close_decrypted : FileSystem → FileName → CipherKey → Ending → Outcome FileResult
  close_decrypted fs target opened (accepted out) =
      ok
        (record { done = true; files = write_file fs target out; key = m.mprotect_noaccess opened })
  close_decrypted fs target opened (rejected out) =
      ok (record {
        done = false;
        files = write_file fs target out;
        key = m.mprotect_noaccess opened;
      })
  close_decrypted fs target opened out_of_fuel = fault

  -- `decryptFile` once both files are open. `stack` is what the array `header` holds before the
  -- read, which can be short.
  unfoldable pub decrypt_opened :
      (stack : List ℕ)
      → FileSystem
      → (target : FileName) → (bytes : List ℕ) → CipherKey
      → Outcome FileResult
  decrypt_opened stack fs target bytes key = do
    let opened = m.mprotect_readonly key
    let first = take stream_headerbytes bytes
    let rest = drop stream_headerbytes bytes
    key_bytes ← readable opened
    close_decrypted fs target opened
        (elim (init_pull (first ++ drop (length first) stack) key_bytes) [
          | none ↦ rejected []
          | some st ↦
              decrypt_loop stream (length rest / (chunk_size + stream_abytes) + 1) st rest []
        ])

  -- `decryptFile`, which opens its files in the same order.
  unfoldable pub decrypt_file :
      (stack : List ℕ) → FileSystem → (target source : FileName) → CipherKey → Outcome FileResult
  decrypt_file stack fs target source key =
      let fs' = open_target fs target in
      let refused = ok (record { done = false; files = fs'; key = key }) in
      elim (fs.contents source) [
        | none ↦ refused
        | some there ↦
            if fs.writable target
            then decrypt_opened stack fs' target (bytes_of (fs'.contents source)) key
            else refused
      ]
