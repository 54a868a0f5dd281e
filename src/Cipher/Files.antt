-- ===== src/Cipher/Files.antt =====
-- `encryptFile` and `decryptFile` of src/cipher.cpp: whole files, and the key they leave.
use cscrypto.Base.{
  ℕ, ◌+◌, ◌*◌, ◌/◌, ◌<◌, ◌≡◌, ◌≢◌, refl, ap, ◌∙◌, Bool, true, false, some, List, [], ◌++◌, arith,
  ◌==◌, length, drop-append_at, take-append_at, drop_all, ok,
}
use mathlib.Core.List.{append-nil}
use cscrypto.Sodium.Memory.{region, no_access, read_only, SodiumMemory}
use cscrypto.Sodium.SecretStream.{SecretStream}
use cscrypto.Cipher.{
  CipherKey, chunk_size, bytes_of, decrypt_loop, FileName, FileSystem, write_file, open_target,
  encrypt_opened, encrypt_file, close_decrypted, decrypt_opened, decrypt_file,
}
use cscrypto.Cipher.Sealed.{sealed, encrypt_loop-sealed}

-- The reads that a file of `n` bytes takes.
pub reads_enough : (n : ℕ) → n < 4096 * (n / 4096 + 1)
reads_enough n = omega arith

pub reads_enough_sealed : (n : ℕ) → n < 4113 * (n / 4113 + 1)
reads_enough_sealed n = omega arith

same-eq : (n : ℕ) → (n == n) ≡ true
same-eq n = ground arith

pub write_file-other :
    (fs : FileSystem) (name other : FileName) (bytes : List ℕ)
    → name ≢ other
    → (write_file fs name bytes).contents other ≡ fs.contents other
write_file-other fs name other bytes h = ground (arith, h)

pub write_file-same :
    (fs : FileSystem) (name : FileName) (bytes : List ℕ)
    → (write_file fs name bytes).contents name ≡ some bytes
write_file-same fs name bytes = ground arith

pub open_target-other :
    (fs : FileSystem) (name other : FileName)
    → name ≢ other
    → (open_target fs name).contents other ≡ fs.contents other
unfolding open_target
open_target-other fs name other h = go (fs.writable name) refl
  where
    go :
        (w : Bool) → fs.writable name ≡ w → (open_target fs name).contents other ≡ fs.contents other
    go true e = rw (open_target, e) (write_file-other fs name other [] h)
    go false e = rw (open_target, e) refl

pub open_target-writable :
    (fs : FileSystem) (name other : FileName)
    → (open_target fs name).writable other ≡ fs.writable other
unfolding open_target
open_target-writable fs name other = go (fs.writable name) refl
  where
    go :
        (w : Bool) → fs.writable name ≡ w → (open_target fs name).writable other ≡ fs.writable other
    go true e = rw (open_target, e) refl
    go false e = rw (open_target, e) refl

module _ (m : SodiumMemory) (stream : SecretStream) where
  open stream use {PushState, PullState, init_push, init_pull, init_lem, header_length, Synced}

  -- The file that `encryptFile` writes.
  unfoldable pub sealed_file : (random bytes key : List ℕ) → List ℕ
  sealed_file random bytes key =
      (init_push random key).1
      ++ sealed stream (length bytes / chunk_size + 1) (init_push random key).0 bytes

  encrypt_opened_lem :
      (random : List ℕ) (fs : FileSystem) (target : FileName) (bytes : List ℕ) (key : CipherKey)
      → encrypt_opened m stream random fs target bytes key
        ≡ ok (record {
          done = true;
          files = write_file fs target (sealed_file random bytes key.bytes);
          key = region key.bytes no_access;
        })
  unfolding encrypt_opened sealed_file
  encrypt_opened_lem random fs target bytes key =
      rw
        (
          m.readonly_lem key,
          encrypt_loop-sealed stream (length bytes / 4096 + 1) (init_push random key.bytes).0 bytes
              (init_push random key.bytes).1 (reads_enough (length bytes)),
          m.noaccess_lem (region key.bytes read_only),
        )
        refl

  -- On every source, also one that is the target.
  pub encrypt_file-emptied :
      (random : List ℕ) (fs : FileSystem) (target source : FileName) (there : List ℕ)
      (key : CipherKey)
      → fs.contents source ≡ some there
      → fs.writable target ≡ true
      → encrypt_file m stream random fs target source key
        ≡ ok (record {
          done = true;
          files =
              write_file
                (open_target fs target)
                target
                (sealed_file random (bytes_of ((open_target fs target).contents source)) key.bytes);
          key = region key.bytes no_access;
        })
  unfolding encrypt_file
  encrypt_file-emptied random fs target source there key c w =
      rw (encrypt_file, c, w)
        (encrypt_opened_lem random (open_target fs target) target
          (bytes_of ((open_target fs target).contents source)) key)

  -- A file that is encrypted onto itself is lost: what is encrypted is the empty text.
  encrypt_file-itself :
      (random : List ℕ) (fs : FileSystem) (name : FileName) (there : List ℕ) (key : CipherKey)
      → fs.contents name ≡ some there
      → fs.writable name ≡ true
      → encrypt_file m stream random fs name name key
        ≡ ok (record {
          done = true;
          files = write_file (open_target fs name) name (sealed_file random [] key.bytes);
          key = region key.bytes no_access;
        })
  unfolding open_target
  encrypt_file-itself random fs name there key c w =
      let emptied : (open_target fs name).contents name ≡ some [] =
        rw (open_target, w) (write_file-same fs name []) in
      let read : bytes_of ((open_target fs name).contents name) ≡ [] = ap bytes_of emptied in
      encrypt_file-emptied random fs name name there key c w
      ∙ ap
          (λ (bytes : List ℕ). ok (record {
            done = true;
            files = write_file (open_target fs name) name (sealed_file random bytes key.bytes);
            key = region key.bytes no_access;
          }))
          read

  pub encrypt_file-opened :
      (random : List ℕ) (fs : FileSystem) (target source : FileName) (bytes : List ℕ)
      (key : CipherKey)
      → fs.contents source ≡ some bytes
      → fs.writable target ≡ true
      → target ≢ source
      → encrypt_file m stream random fs target source key
        ≡ ok (record {
          done = true;
          files = write_file (open_target fs target) target (sealed_file random bytes key.bytes);
          key = region key.bytes no_access;
        })
  encrypt_file-opened random fs target source bytes key c w ne =
      let read : bytes_of ((open_target fs target).contents source) ≡ bytes =
        ap bytes_of (open_target-other fs target source ne ∙ c) in
      rw (← read) (encrypt_file-emptied random fs target source bytes key c w)

  decrypt_opened_lem :
      (stack : List ℕ) (fs : FileSystem) (target : FileName) (header rest : List ℕ) (q : PullState)
      (key : CipherKey)
      → length header ≡ 24
      → length stack ≡ 24
      → init_pull header key.bytes ≡ some q
      → decrypt_opened m stream stack fs target (header ++ rest) key
        ≡ close_decrypted m stream fs target
            (region key.bytes read_only)
            (decrypt_loop stream (length rest / 4113 + 1) q rest [])
  unfolding decrypt_opened
  decrypt_opened_lem stack fs target header rest q key h s e =
      rw
        (
          decrypt_opened,
          m.readonly_lem key,
          take-append_at 24 header rest h,
          drop_all (length header) stack (omega arith),
          append-nil header,
          e,
          drop-append_at 24 header rest h,
        )
        refl

  pub decrypt_file-opened :
      (stack : List ℕ) (fs : FileSystem) (target source : FileName) (header rest : List ℕ)
      (q : PullState) (key : CipherKey)
      → fs.contents source ≡ some (header ++ rest)
      → fs.writable target ≡ true
      → target ≢ source
      → length header ≡ 24
      → length stack ≡ 24
      → init_pull header key.bytes ≡ some q
      → decrypt_file m stream stack fs target source key
        ≡ close_decrypted m stream
            (open_target fs target)
            target
            (region key.bytes read_only)
            (decrypt_loop stream (length rest / 4113 + 1) q rest [])
  unfolding decrypt_file
  decrypt_file-opened stack fs target source header rest q key c w ne h s e =
      rw (decrypt_file, c, w, open_target-other fs target source ne, c)
        (decrypt_opened_lem stack (open_target fs target) target header rest q key h s e)
