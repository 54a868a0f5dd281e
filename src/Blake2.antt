-- ===== src/Blake2.antt =====
-- The interface of `blake2s`, from the BLAKE2 library (a git submodule).
use cscrypto.Base.{ℕ, ◌≤◌, ◌≡◌, List, Option, some, length, IsBytes}

-- BLAKE2S_OUTBYTES and BLAKE2S_KEYBYTES.
abbrev pub blake2s_outbytes : ℕ
blake2s_outbytes = 32

abbrev pub blake2s_keybytes : ℕ
blake2s_keybytes = 32

-- `blake2s data key` with the output length BLAKE2S_OUTBYTES. `none` is the result -1, after which
-- the output is untouched; keys up to the documented size are accepted.
pub record Blake2 : Type 0 where
  pub blake2s : List ℕ → List ℕ → Option (List ℕ)
  pub blake2s_lem :
      (message key : List ℕ)
      → length key ≤ blake2s_keybytes
      → (h : List ℕ) × (blake2s message key ≡ some h) × (length h ≡ blake2s_outbytes) × IsBytes h
