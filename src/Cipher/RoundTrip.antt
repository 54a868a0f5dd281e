-- ===== src/Cipher/RoundTrip.antt =====
-- `decryptFile` on what `encryptFile` wrote (src/cipher.cpp), whole or cut.
use cscrypto.Base.{
  ℕ, ◌+◌, ◌*◌, ◌/◌, ◌≤◌, ◌<◌, ◌≡◌, ◌≢◌, refl, sym, ap, ◌∙◌, true, false, some, List, [], arith,
  length, take, length-take, take-append_more, ok, ok_injective,
}
use mathlib.Core.Option.{some-injective}
use cscrypto.Sodium.Memory.{region, no_access, Access, read_only, SodiumMemory}
use cscrypto.Sodium.SecretStream.{SecretStream}
use cscrypto.Cipher.{
  CipherKey, FileName, FileSystem, write_file, open_target, FileResult, encrypt_file,
  close_decrypted, decrypt_file,
}
use cscrypto.Cipher.Sealed.{sealed, length-sealed, decrypt_loop-sealed, decrypt_loop-cut}
use cscrypto.Cipher.Files.{
  write_file-same, open_target-writable, reads_enough, reads_enough_sealed, sealed_file,
  encrypt_file-opened, decrypt_file-opened,
}

module _ (m : SodiumMemory) (stream : SecretStream) where
  open stream use {PushState, PullState, init_push, init_pull, init_lem, header_length, Synced}

  -- What `decryptFile` does with a file that holds `sealed_file`.
  decrypt_file-sealed :
      (random stack bytes : List ℕ) (fs : FileSystem) (target source : FileName) (key : CipherKey)
      → fs.contents source ≡ some (sealed_file m stream random bytes key.bytes)
      → fs.writable target ≡ true
      → target ≢ source
      → length stack ≡ 24
      → decrypt_file m stream stack fs target source key
        ≡ ok (record {
          done = true;
          files = write_file (open_target fs target) target bytes;
          key = region key.bytes no_access;
        })
  unfolding sealed_file close_decrypted
  decrypt_file-sealed random stack bytes fs target source key c w ne s =
      let (q, pulled, synced) = init_lem random key.bytes in
      let p = (init_push random key.bytes).0 in
      let chunks = sealed stream (length bytes / 4096 + 1) p bytes in
      rw
        (
          decrypt_file-opened m stream stack fs target source (init_push random key.bytes).1 chunks
              q key c w ne (header_length random key.bytes) s pulled,
          decrypt_loop-sealed stream (length bytes / 4096 + 1) (length chunks / 4113 + 1) p q bytes
              [] synced (reads_enough (length bytes)) (reads_enough_sealed (length chunks)),
          m.noaccess_lem (region key.bytes read_only),
        )
        refl

  -- The two file functions, with the key of the decryption protected in any way.
  pub decrypt_file-encrypt_file_any :
      (random stack bytes : List ℕ) (fs : FileSystem) (plain target source : FileName)
      (key : CipherKey) (access : Access)
      → fs.contents source ≡ some bytes
      → fs.writable target ≡ true
      → fs.writable plain ≡ true
      → target ≢ source
      → target ≢ plain
      → length stack ≡ 24
      → (enc : FileSystem) × (dec : FileSystem) × (encrypt_file m stream random fs target source key
          ≡ ok (record { done = true; files = enc; key = region key.bytes no_access }))
        × (decrypt_file m stream stack enc plain target (region key.bytes access)
            ≡ ok (record { done = true; files = dec; key = region key.bytes no_access }))
        × (dec.contents plain ≡ some bytes)
  decrypt_file-encrypt_file_any random stack bytes fs plain target source key access c w w' apart ne
        s =
      let sealed_bytes = sealed_file m stream random bytes key.bytes in
      let enc = write_file (open_target fs target) target sealed_bytes in
      (
        enc,
        write_file (open_target enc plain) plain bytes,
        encrypt_file-opened m stream random fs target source bytes key c w apart,
        decrypt_file-sealed random stack bytes enc plain target (region key.bytes access)
            (write_file-same (open_target fs target) target sealed_bytes)
            (open_target-writable fs target plain ∙ w') (λ e. ne (sym e)) s,
        write_file-same (open_target enc plain) plain bytes,
      )

  -- The two file functions undo each other. If the source exists, the two targets can be opened for
  -- writing, the target of the encryption is neither its source nor the target of the decryption, and
  -- the header array has its 24 bytes, then `encryptFile` ends
  -- without a fault and with true, `decryptFile` of its output does so too, and the new file holds
  -- the bytes of the source, of whatever length. The key is locked after both.
  pub decrypt_file-encrypt_file :
      (random stack bytes : List ℕ) (fs : FileSystem) (plain target source : FileName)
      (key : CipherKey)
      → fs.contents source ≡ some bytes
      → fs.writable target ≡ true
      → fs.writable plain ≡ true
      → target ≢ source
      → target ≢ plain
      → length stack ≡ 24
      → (enc : FileSystem) × (dec : FileSystem) × (encrypt_file m stream random fs target source key
          ≡ ok (record { done = true; files = enc; key = region key.bytes no_access }))
        × (decrypt_file m stream stack enc plain target (region key.bytes no_access)
            ≡ ok (record { done = true; files = dec; key = region key.bytes no_access }))
        × (dec.contents plain ≡ some bytes)
  decrypt_file-encrypt_file random stack bytes fs plain target source key =
      decrypt_file-encrypt_file_any random stack bytes fs plain target source key no_access

  cut_reads :
      (k : ℕ) (p : PushState) (bytes : List ℕ)
      → 4096 * k ≤ length bytes
      → k < length (take (4113 * k) (sealed stream (length bytes / 4096 + 1) p bytes)) / 4113 + 1
  cut_reads k p bytes l = omega (
    arith,
    length-take (4113 * k) (sealed stream (length bytes / 4096 + 1) p bytes),
    length-sealed stream (length bytes / 4096 + 1) p bytes (reads_enough (length bytes)),
  )

  sealed_file-cut :
      (k : ℕ) (random stack bytes : List ℕ) (fs : FileSystem) (target source : FileName)
      (key : CipherKey)
      → fs.contents source
        ≡ some (take (24 + 4113 * k) (sealed_file m stream random bytes key.bytes))
      → fs.writable target ≡ true
      → target ≢ source
      → length stack ≡ 24
      → 4096 * k ≤ length bytes
      → decrypt_file m stream stack fs target source key
        ≡ ok (record {
          done = false;
          files = write_file (open_target fs target) target (take (4096 * k) bytes);
          key = region key.bytes no_access;
        })
  unfolding sealed_file close_decrypted
  sealed_file-cut k random stack bytes fs target source key c w ne s l =
      let (q, pulled, synced) = init_lem random key.bytes in
      let p = (init_push random key.bytes).0 in
      let header = (init_push random key.bytes).1 in
      let chunks = sealed stream (length bytes / 4096 + 1) p bytes in
      let rest = take (4113 * k) chunks in
      rw
        (
          decrypt_file-opened m stream stack fs target source header rest q key
              (c
                ∙ ap some
                    (take-append_more 24 (4113 * k) header chunks (header_length random key.bytes)))
              w ne (header_length random key.bytes) s pulled,
          decrypt_loop-cut stream k (length bytes / 4096 + 1) (length rest / 4113 + 1) p q bytes []
              synced l (reads_enough (length bytes)) (cut_reads k p bytes l),
          m.noaccess_lem (region key.bytes read_only),
        )
        refl

  -- What `encryptFile` writes for a source of `n` bytes is cut behind its header and `k` full
  -- chunks, with 4096 * k ≤ n, so that its last chunk is lost. Source and target of the encryption
  -- are different, and so are those of the decryption. If both targets can be opened and the
  -- header array has its 24 bytes, `decryptFile` refuses that file: the result is false and the
  -- key is locked, but the target holds the first 4096 * k bytes of the plain text.
  pub decrypt_file-cut :
      (k : ℕ) (random stack bytes written : List ℕ) (fs fs' : FileSystem)
      (target source plain cut : FileName) (key : CipherKey) (r : FileResult)
      → fs.contents source ≡ some bytes
      → fs.writable target ≡ true
      → target ≢ source
      → encrypt_file m stream random fs target source key ≡ ok r
      → r.files.contents target ≡ some written
      → fs'.contents cut ≡ some (take (24 + 4113 * k) written)
      → fs'.writable plain ≡ true
      → plain ≢ cut
      → length stack ≡ 24
      → 4096 * k ≤ length bytes
      → decrypt_file m stream stack fs' plain cut r.key
        ≡ ok (record {
          done = false;
          files = write_file (open_target fs' plain) plain (take (4096 * k) bytes);
          key = region key.bytes no_access;
        })
  decrypt_file-cut k random stack bytes written fs fs' target source plain cut key r c w ne e o c'
        w' ne' s l =
      let result =
        ok_injective
          (sym e ∙ encrypt_file-opened m stream random fs target source bytes key c w ne) in
      let locked : r.key ≡ region key.bytes no_access = ap (λ x. x.key) result in
      let same : written ≡ sealed_file m stream random bytes key.bytes =
        some-injective written (sealed_file m stream random bytes key.bytes) (
          sym o
          ∙ ap (λ x. x.files.contents target) result
          ∙ write_file-same (open_target fs target) target
              (sealed_file m stream random bytes key.bytes)) in
      rw locked (
        sealed_file-cut k random stack bytes fs' plain cut (region key.bytes no_access)
          (c' ∙ ap (λ xs. some (take (24 + 4113 * k) xs)) same) w' ne' s l)
