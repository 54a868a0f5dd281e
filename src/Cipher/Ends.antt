-- ===== src/Cipher/Ends.antt =====
-- How `encryptFile` and `decryptFile` of src/cipher.cpp end, on every file and every branch.
use cscrypto.Base.{
  ℕ, ◌+◌, ◌/◌, ◌≡◌, ◌≢◌, refl, ◌∙◌, Bool, true, false, ◌&&◌, Option, none, some, is_some, List, [],
  ◌++◌, arith, length, take, drop, if◌then◌else◌, ok,
}
use cscrypto.Sodium.Memory.{region, no_access, read_only, SodiumMemory}
use cscrypto.Sodium.SecretStream.{SecretStream}
use cscrypto.Cipher.{
  CipherKey, bytes_of, decrypt_loop, Ending, accepted, rejected, out_of_fuel, FileName, FileSystem,
  write_file, open_target, FileResult, encrypt_file, close_decrypted, decrypt_opened, decrypt_file,
}
use cscrypto.Cipher.Sealed.{decrypt_loop-ends}
use cscrypto.Cipher.Files.{
  sealed_file, encrypt_file-emptied, write_file-other, write_file-same, open_target-other,
  reads_enough_sealed,
}

module _ (m : SodiumMemory) (stream : SecretStream) where
  open stream use {PullState, init_pull}

  -- The key as the two functions leave it: locked, unless a file could not be opened.
  unfoldable pub key_after : FileSystem → FileName → FileName → CipherKey → CipherKey
  key_after fs target source key =
      if is_some (fs.contents source) && fs.writable target then region key.bytes no_access else key

  -- `encryptFile` always ends without a fault. The result is true exactly when the source exists and
  -- the target can be opened. No other file changes. The key is locked if both files were opened, and as
  -- it was if not.
  pub encrypt_file_lem :
      (random : List ℕ) (fs : FileSystem) (target source other : FileName) (key : CipherKey)
      → target ≢ other
      → (r : FileResult) × (encrypt_file m stream random fs target source key ≡ ok r)
        × (r.done ≡ (is_some (fs.contents source) && fs.writable target))
        × (r.files.contents other ≡ fs.contents other)
        × (r.key ≡ key_after fs target source key)
  unfolding encrypt_file key_after open_target
  encrypt_file_lem random fs target source other key ne =
      go (fs.contents source) refl (fs.writable target) refl
    where
      go :
          (c : Option (List ℕ))
          → fs.contents source ≡ c
          → (w : Bool) → fs.writable target ≡ w
          → (r : FileResult) × (encrypt_file m stream random fs target source key ≡ ok r)
            × (r.done ≡ (is_some (fs.contents source) && fs.writable target))
            × (r.files.contents other ≡ fs.contents other)
            × (r.key ≡ key_after fs target source key)
      go none c true w = (
        record { done = false; files = write_file fs target []; key = key },
        rw (encrypt_file, c, open_target, w) refl,
        rw c refl,
        write_file-other fs target other [] ne,
        rw (key_after, c) refl,
      )
      go none c false w = (
        record { done = false; files = fs; key = key },
        rw (encrypt_file, c, open_target, w) refl,
        rw c refl,
        refl,
        rw (key_after, c) refl,
      )
      go (some bytes) c false w = (
        record { done = false; files = fs; key = key },
        rw (encrypt_file, c, open_target, w) refl,
        rw (c, w) refl,
        refl,
        rw (key_after, c, w) refl,
      )
      go (some bytes) c true w =
          let bytes' = bytes_of ((open_target fs target).contents source) in
          (
            record {
              done = true;
              files =
                  write_file (open_target fs target) target
                    (sealed_file m stream random bytes' key.bytes);
              key = region key.bytes no_access;
            },
            encrypt_file-emptied m stream random fs target source bytes key c w,
            rw (c, w) refl,
            write_file-other (open_target fs target) target other
                  (sealed_file m stream random bytes' key.bytes) ne
                ∙ open_target-other fs target other ne,
            rw (key_after, c, w) refl,
          )

  close_decrypted_lem :
      (fs : FileSystem) (target other : FileName) (key : CipherKey) (e : Ending)
      → target ≢ other
      → e ≢ out_of_fuel
      → (r : FileResult) × (close_decrypted m stream fs target (region key.bytes read_only) e
          ≡ ok r)
        × (r.files.contents other ≡ fs.contents other)
        × (r.key ≡ region key.bytes no_access)
  unfolding close_decrypted
  close_decrypted_lem fs target other key (accepted out) ne e = (
    record {
      done = true;
      files = write_file fs target out;
      key = m.mprotect_noaccess (region key.bytes read_only);
    },
    refl,
    write_file-other fs target other out ne,
    m.noaccess_lem (region key.bytes read_only),
  )
  close_decrypted_lem fs target other key (rejected out) ne e = (
    record {
      done = false;
      files = write_file fs target out;
      key = m.mprotect_noaccess (region key.bytes read_only);
    },
    refl,
    write_file-other fs target other out ne,
    m.noaccess_lem (region key.bytes read_only),
  )
  close_decrypted_lem fs target other key out_of_fuel ne e = absurd (e refl)

  -- How `decryptFile` goes on behind the header.
  body_ending : (bytes : List ℕ) → Option PullState → Ending
  body_ending bytes none = rejected []
  body_ending bytes (some q) =
      decrypt_loop stream (length (drop 24 bytes) / 4113 + 1) q (drop 24 bytes) []

  body_ending-ends : (bytes : List ℕ) (o : Option PullState) → body_ending bytes o ≢ out_of_fuel
  unfolding body_ending
  body_ending-ends bytes none = ground arith
  body_ending-ends bytes (some q) =
      decrypt_loop-ends stream (length (drop 24 bytes) / 4113 + 1) q (drop 24 bytes) []
        (reads_enough_sealed (length (drop 24 bytes)))

  decrypt_opened-body :
      (stack : List ℕ) (fs : FileSystem) (target : FileName) (bytes : List ℕ) (key : CipherKey)
      → decrypt_opened m stream stack fs target bytes key
        ≡ close_decrypted m stream fs target (region key.bytes read_only) (
            body_ending bytes
              (init_pull (take 24 bytes ++ drop (length (take 24 bytes)) stack) key.bytes))
  unfolding decrypt_opened body_ending
  decrypt_opened-body stack fs target bytes key = rw (decrypt_opened, m.readonly_lem key) refl

  -- `decryptFile` always ends without a fault: on every source file, also one that is shorter than
  -- a header or that `encryptFile` never wrote, and however the stream answers. No file but the
  -- target changes. The key is locked if both files were opened, and as it was if not.
  pub decrypt_file_lem :
      (stack : List ℕ) (fs : FileSystem) (target source other : FileName) (key : CipherKey)
      → target ≢ other
      → (r : FileResult) × (decrypt_file m stream stack fs target source key ≡ ok r)
        × (r.files.contents other ≡ fs.contents other)
        × (r.key ≡ key_after fs target source key)
  unfolding decrypt_file key_after
  decrypt_file_lem stack fs target source other key ne =
      go (fs.contents source) refl (fs.writable target) refl
    where
      go :
          (c : Option (List ℕ))
          → fs.contents source ≡ c
          → (w : Bool) → fs.writable target ≡ w
          → (r : FileResult) × (decrypt_file m stream stack fs target source key ≡ ok r)
            × (r.files.contents other ≡ fs.contents other)
            × (r.key ≡ key_after fs target source key)
      go none c w e = (
        record { done = false; files = open_target fs target; key = key },
        rw (decrypt_file, c) refl,
        open_target-other fs target other ne,
        rw (key_after, c) refl,
      )
      go (some bytes) c false w = (
        record { done = false; files = open_target fs target; key = key },
        rw (decrypt_file, c, w) refl,
        open_target-other fs target other ne,
        rw (key_after, c, w) refl,
      )
      go (some bytes) c true w =
          let bytes' = bytes_of ((open_target fs target).contents source) in
          let first = take 24 bytes' in
          let o = init_pull (first ++ drop (length first) stack) key.bytes in
          let (r, closed, same, locked) =
            close_decrypted_lem (open_target fs target) target other key (body_ending bytes' o) ne
              (body_ending-ends bytes' o) in
          (
            r,
            rw (decrypt_file, c, w)
                (decrypt_opened-body stack (open_target fs target) target bytes' key ∙ closed),
            same ∙ open_target-other fs target other ne,
            rw (key_after, c, w) locked,
          )

  -- A source that does not exist costs the target its contents: both functions return false, leave
  -- the key as it is, and have emptied every target that can be opened.
  pub decrypt_file-missing :
      (random stack : List ℕ) (fs : FileSystem) (target source : FileName) (key : CipherKey)
      → fs.contents source ≡ none
      → fs.writable target ≡ true
      → (encrypt_file m stream random fs target source key
          ≡ decrypt_file m stream stack fs target source key)
        × (r : FileResult) × (decrypt_file m stream stack fs target source key ≡ ok r)
        × (r.done ≡ false)
        × (r.key ≡ key)
        × (r.files.contents target ≡ some [])
  unfolding encrypt_file decrypt_file open_target
  decrypt_file-missing random stack fs target source key c w = (
    rw (encrypt_file, decrypt_file, c) refl,
    record { done = false; files = open_target fs target; key = key },
    rw (decrypt_file, c) refl,
    refl,
    refl,
    rw (open_target, w) (write_file-same fs target []),
  )
