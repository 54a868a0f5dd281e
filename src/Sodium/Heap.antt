-- ===== src/Sodium/Heap.antt =====
-- Guarded memory behind pointers: `sodium_malloc`, `sodium_free` and `sodium_mprotect_*`.
use cscrypto.Base.{ℕ, ◌≡◌, ◌≢◌, ◌⊎◌, Option, none, some, List, length, ◌==◌, if◌then◌else◌}
use cscrypto.Sodium.Memory.{Region, region, no_access, read_only, read_write}

abbrev pub Ptr : Type 0
Ptr = ℕ

abbrev pub null : Ptr
null = 0

abbrev pub Heap : Type 0
Heap = Ptr → Option Region

abbrev pub update {ℓ} : {A : Type ℓ} → (Ptr → A) → Ptr → A → Ptr → A
update f p v q = if p == q then v else f q

-- The first argument of `malloc` stands for the choice of the allocator.
pub record SodiumHeap : Type 0 where
  pub malloc : Ptr → ℕ → Heap → Ptr × Heap
  pub free : Ptr → Heap → Heap
  pub protect_noaccess : Ptr → Heap → Heap
  pub protect_readonly : Ptr → Heap → Heap
  -- NULL, or a new region of the size asked for.
  pub malloc_lem :
      (choice : Ptr) (n : ℕ) (h : Heap)
      → ((malloc choice n h ≡ (null, h))
          ⊎ (((malloc choice n h).0 ≢ null)
              × (h (malloc choice n h).0 ≡ none)
              × (bytes : List ℕ) × (length bytes ≡ n)
              × ((malloc choice n h).1
                  ≡ update h (malloc choice n h).0 (some (region bytes read_write)))))
  pub free_lem : (p : Ptr) (h : Heap) → p ≢ null → free p h ≡ update h p none
  pub noaccess_lem :
      (p : Ptr) (h : Heap) (r : Region)
      → h p ≡ some r
      → protect_noaccess p h ≡ update h p (some (region r.bytes no_access))
  pub readonly_lem :
      (p : Ptr) (h : Heap) (r : Region)
      → h p ≡ some r
      → protect_readonly p h ≡ update h p (some (region r.bytes read_only))
