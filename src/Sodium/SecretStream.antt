-- ===== src/Sodium/SecretStream.antt =====
-- `crypto_secretstream_xchacha20poly1305_*`: a stream of encrypted chunks.
use cscrypto.Base.{ℕ, ◌+◌, ◌<◌, ◌≡◌, Option, none, some, List, length}

abbrev pub stream_abytes : ℕ
stream_abytes = 17

abbrev pub stream_headerbytes : ℕ
stream_headerbytes = 24

-- TAG_MESSAGE and TAG_FINAL.
abbrev pub tag_message : ℕ
tag_message = 0

abbrev pub tag_final : ℕ
tag_final = 3

-- `init_push` takes the random bytes of the header beside the key; `none` is the result -1.
pub record SecretStream : Type 1 where
  pub PushState : Type 0
  pub PullState : Type 0
  pub init_push : List ℕ → List ℕ → PushState × List ℕ
  pub push : PushState → List ℕ → ℕ → PushState × List ℕ
  pub init_pull : List ℕ → List ℕ → Option PullState
  pub pull : PullState → List ℕ → Option (PullState × List ℕ × ℕ)
  -- The two ends have seen the same chunks under the same key.
  pub Synced : PushState → PullState → Type 0
  pub header_length : (random key : List ℕ) → length (init_push random key).1 ≡ stream_headerbytes
  pub init_lem :
      (random key : List ℕ)
      → (q : PullState) × (init_pull (init_push random key).1 key ≡ some q)
        × Synced (init_push random key).0 q
  pub push_length :
      (p : PushState) (message : List ℕ) (tag : ℕ)
      → length (push p message tag).1 ≡ length message + stream_abytes
  pub pull-push :
      (p : PushState) (q : PullState) (message : List ℕ) (tag : ℕ)
      → Synced p q
      → (q' : PullState) × (pull q (push p message tag).1 ≡ some (q', message, tag))
        × Synced (push p message tag).0 q'
  -- A chunk shorter than its own tag and code is refused.
  pub pull_short :
      (q : PullState) (chunk : List ℕ) → length chunk < stream_abytes → pull q chunk ≡ none
