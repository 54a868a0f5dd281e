-- ===== src/Sodium/Memory.antt =====
-- Guarded memory: `sodium_mprotect_noaccess`, `sodium_mprotect_readonly` and `sodium_memzero` on a
-- region that `sodium_malloc` returned and one object owns (include/cscrypto/memoryprotection.hpp).
use cscrypto.Base.{ℕ, ◌≡◌, refl, List, length, replicate, Outcome, ok, fault}

pub data Access : Type 0 where
  no_access read_only read_write : Access

pub record Region : Type 0 where
  pub bytes : List ℕ
  pub access : Access

abbrev pub region : List ℕ → Access → Region
region bs a = record { bytes = bs; access = a }

-- What a read through `data()` sees; a protected region kills the process.
abbrev pub readable_by : Access → List ℕ → Outcome (List ℕ)
readable_by no_access bs = fault
readable_by read_only bs = ok bs
readable_by read_write bs = ok bs

abbrev pub readable : Region → Outcome (List ℕ)
readable r = readable_by r.access r.bytes

pub record SodiumMemory : Type 0 where
  pub mprotect_noaccess : Region → Region
  pub mprotect_readonly : Region → Region
  pub memzero : ℕ → Region → Region
  pub noaccess_lem : (r : Region) → mprotect_noaccess r ≡ region r.bytes no_access
  pub readonly_lem : (r : Region) → mprotect_readonly r ≡ region r.bytes read_only
  pub memzero_lem :
      (n : ℕ) (bs : List ℕ)
      → length bs ≡ n
      → memzero n (region bs read_write) ≡ region (replicate n 0) read_write

-- A value of the interface.
abbrev pub simple_memory : SodiumMemory
simple_memory = record {
  mprotect_noaccess = λ r. region r.bytes no_access;
  mprotect_readonly = λ r. region r.bytes read_only;
  memzero = λ n r. region (replicate n 0) r.access;
  noaccess_lem = λ r. refl;
  readonly_lem = λ r. refl;
  memzero_lem = λ n bs h. refl;
}
